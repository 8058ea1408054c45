-- ===== src/VirtualModels/Paths.antt =====
-- normalizeUserPaths of internal/virtualmodels/validation.go, and userPathAllowed of authorize.go.
pub mod Allowed
use thinroute.Prelude.{
  Bool, List, Option, [], any, false, if◌then◌else◌, length, none, some, true, ◌/◌, ◌==◌, ◌||◌, ◌∷◌,
}
use thinroute.Text.{Text, is_empty}
use thinroute.UserPath.{
  Normalized, user_path_ancestors, path, normalize_user_path, dot_segment, colon_segment,
}
use thinroute.VirtualModels.{◌>>=◌, Checked, valid, invalid, invalid_user_paths}
use thinroute.Text.Order.{mem, sort_texts}
use thinroute.Text.Search.{binary_search}

-- The normalized path, or the error of normalizeUserPaths.
abbrev checked_path : Normalized → Checked Text
checked_path (path p) = valid p
checked_path dot_segment = invalid invalid_user_paths
checked_path colon_segment = invalid invalid_user_paths

-- The loop of normalizeUserPaths, with the paths that it has seen.
unfoldable pub distinct_paths : List Text → (seen : List Text) → Checked (List Text)
distinct_paths [] seen = valid []
distinct_paths (raw ∷ rest) seen = do
  p ← checked_path (normalize_user_path raw)
  if is_empty p || mem p seen
      then distinct_paths rest seen
      else do ps ← distinct_paths rest (p ∷ seen); valid (p ∷ ps)

-- normalizeUserPaths. A slice of length 0 and nil are the same list.
unfoldable pub normalize_user_paths : List Text → Checked (List Text)
normalize_user_paths paths = do ps ← distinct_paths paths []; valid (sort_texts ps)

-- The loop over the ancestors of userPathAllowed.
abbrev pub some_allowed : List Text → Option (List Text) → Bool
some_allowed allowed none = false
some_allowed allowed (some ancestors) = any (λ candidate. binary_search allowed candidate) ancestors

-- userPathAllowed, after the normalization.
unfoldable pub path_allowed : Normalized → (allowed : List Text) → Bool
path_allowed dot_segment allowed = false
path_allowed colon_segment allowed = false
path_allowed (path p) allowed =
    if is_empty p then false else some_allowed allowed (user_path_ancestors p)

-- userPathAllowed
unfoldable pub user_path_allowed : Text → (allowed : List Text) → Bool
user_path_allowed user_path allowed =
    if length allowed == 0
    then true
    else if binary_search allowed (b'/' ∷ [])
    then true
    else path_allowed (normalize_user_path user_path) allowed
