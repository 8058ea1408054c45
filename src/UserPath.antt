-- ===== src/UserPath.antt =====
-- internal/core/user_path.go: the path of a user in a hierarchy, such as /team/alice, and the
-- paths above it.
pub mod Normal
pub mod Ancestors
mod Tests
use thinroute.Text.Split.{join_texts, split, last_index}
use thinroute.Text.{Text, text_eq, contains, trim_space, is_empty, has_prefix}
use thinroute.Prelude.{
  Bool, List, Option, [], if◌then◌else◌, length, none, some, suc, take, zero, ℕ, ◌/◌, ◌||◌, ◌∷◌,
}
use mathlib.Core.Option

-- The errors of NormalizeUserPath, and the path that it gives; the empty path is no path.
pub data Normalized : Type 0 where
  path : Text → Normalized
  dot_segment colon_segment : Normalized

-- The two segments that NormalizeUserPath refuses, "." and "..".
unfoldable pub is_dots : Text → Bool
unfolding text_eq
is_dots segment = text_eq segment (b'.' ∷ []) || text_eq segment (b'.' ∷ b'.' ∷ [])

-- What the loop over the segments answers.
pub data Segments : Type 0 where
  kept : List Text → Segments
  refused_dots refused_colon : Segments

abbrev keep : Text → Segments → Segments
keep w (kept ws) = kept (w ∷ ws)
keep w refused_dots = refused_dots
keep w refused_colon = refused_colon

-- The loop over the segments.
unfoldable pub canonical_segments : List Text → Segments
unfolding is_dots contains
canonical_segments [] = kept []
canonical_segments (raw ∷ rest) =
    let segment = trim_space raw in
    let others = canonical_segments rest in
    if is_empty segment
    then others
    else if is_dots segment
    then refused_dots
    else if contains segment (b':' ∷ [])
    then refused_colon
    else keep segment others

-- The end of NormalizeUserPath.
unfoldable pub joined_path : Segments → Normalized
unfolding join_texts
joined_path (kept []) = path (b'/' ∷ [])
joined_path (kept (w ∷ ws)) = path (b'/' ∷ join_texts (w ∷ ws) b'/')
joined_path refused_dots = dot_segment
joined_path refused_colon = colon_segment

-- NormalizeUserPath
unfoldable pub normalize_user_path : Text → Normalized
unfolding canonical_segments joined_path split
normalize_user_path raw_in =
    let raw = trim_space raw_in in
    let rooted = if has_prefix raw (b'/' ∷ []) then raw else b'/' ∷ raw in
    if is_empty raw then path [] else joined_path (canonical_segments (split rooted b'/'))

-- The body of the loop of UserPathAncestors, at the index of the last slash.
unfoldable pub above : Text → Option ℕ → Text
above current none = b'/' ∷ []
above current (some zero) = b'/' ∷ []
above current (some (suc i)) = take (suc i) current

-- One turn of the loop of UserPathAncestors: the path above.
unfoldable pub parent : Text → Text
unfolding last_index above
parent current = above current (last_index current b'/')

-- The loop of UserPathAncestors, with fuel; `none` when the fuel is spent.
unfoldable pub climb : ℕ → Text → Option (List Text)
unfolding parent text_eq
climb zero current = none
climb (suc fuel) current =
    let rest = climb fuel (parent current) in
    if text_eq current (b'/' ∷ []) then some [] else Option.map (λ r. parent current ∷ r) rest

-- UserPathAncestors, after the normalization.
unfoldable pub ancestors_of : Normalized → Option (List Text)
ancestors_of dot_segment = some []
ancestors_of colon_segment = some []
ancestors_of (path p) =
    if is_empty p
    then some []
    else if text_eq p (b'/' ∷ [])
    then some ((b'/' ∷ []) ∷ [])
    else Option.map (λ r. p ∷ r) (climb (suc (length p)) p)

-- UserPathAncestors
unfoldable pub user_path_ancestors : Text → Option (List Text)
unfolding normalize_user_path ancestors_of
user_path_ancestors raw = ancestors_of (normalize_user_path raw)
