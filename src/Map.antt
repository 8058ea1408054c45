-- ===== src/Map.antt =====
-- Go maps with string keys, as association lists with one entry for a key. The order of iteration
-- over a Go map is unspecified; the list's order stands for the one that a run meets.
pub mod Laws
use thinroute.Prelude.{ℕ, ◌+◌, List, [], ◌∷◌, Option, none, some, if◌then◌else◌}
use thinroute.Text.{Text, text_eq}

abbrev pub Map : Type 0 → Type 0
Map V = List (Text × V)

module _ {V : Type 0} where
  -- m[k]
  unfoldable pub lookup : Text → Map V → Option V
  lookup k [] = none
  lookup k ((j, v) ∷ m) = if text_eq j k then some v else lookup k m

  -- delete(m, k)
  unfoldable pub remove : Text → Map V → Map V
  remove k [] = []
  remove k ((j, v) ∷ m) = if text_eq j k then remove k m else (j, v) ∷ remove k m

  -- m[k] = v
  unfoldable pub insert : Text → V → Map V → Map V
  insert k v m = (k, v) ∷ remove k m

  abbrev pub keys : Map V → List Text
  keys [] = []
  keys ((k, _) ∷ m) = k ∷ keys m

-- m[k] of a map of numbers, 0 for a missing key.
abbrev pub or_zero : Option ℕ → ℕ
or_zero none = 0
or_zero (some n) = n

-- The sum of the values.
unfoldable pub sum : Map ℕ → ℕ
sum [] = 0
sum ((_, n) ∷ m) = n + sum m
