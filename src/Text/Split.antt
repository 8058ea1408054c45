-- ===== src/Text/Split.antt =====
-- strings.Split, strings.Join and strings.LastIndex at a separator of one code point.
use thinroute.Text.{Text}
use mathlib.Core.List.{append-nil}
use thinroute.Prelude.{
  ==_iff, All, Bool-cases, List, Option, [], any, ap, arith, false, if◌then◌else◌, inl, inr, length,
  none, refl, some, suc, ℕ, ◌++◌, ◌==◌, ◌∙◌, ◌∷◌, ◌≡◌,
}

abbrev pub push_first : ℕ → List Text → List Text
push_first c [] = (c ∷ []) ∷ []
push_first c (w ∷ ws) = (c ∷ w) ∷ ws

-- strings.Split(s, sep)
unfoldable pub split : Text → ℕ → List Text
split [] sep = [] ∷ []
split (c ∷ s) sep = let rest = split s sep in if c == sep then [] ∷ rest else push_first c rest

-- Each text behind a separator.
unfoldable pub separated : List Text → ℕ → Text
separated [] sep = []
separated (w ∷ ws) sep = sep ∷ (w ++ separated ws sep)

-- strings.Join(ws, sep)
unfoldable pub join_texts : List Text → ℕ → Text
unfolding separated
join_texts [] sep = []
join_texts (w ∷ ws) sep = w ++ separated ws sep

-- strings.LastIndex(s, sep); `none` is -1.
unfoldable pub last_index : Text → ℕ → Option ℕ
last_index [] sep = none
last_index (c ∷ s) sep = elim (last_index s sep) [
  | some i ↦ some (suc i)
  | none ↦ if c == sep then some 0 else none
]

-- The separator does not occur.
abbrev pub Free : ℕ → Text → Type 0
Free sep w = any (λ c. c == sep) w ≡ false

pub split_one : (w : Text) (sep : ℕ) → Free sep w → split w sep ≡ w ∷ []
unfolding split
split_one [] sep h = refl
split_one (c ∷ w) sep h = elim (Bool-cases (c == sep)) [
  | inl e ↦ absurd (ground arith)
  | inr e ↦ rw (e, split_one w sep (ground arith)) refl
]

-- A text without the separator, then the separator: the first part.
split-append : (w t : Text) (sep : ℕ) → Free sep w → split (w ++ sep ∷ t) sep ≡ w ∷ split t sep
unfolding split
split-append [] t sep h = rw ((==_iff sep sep).1 refl) refl
split-append (c ∷ w) t sep h = elim (Bool-cases (c == sep)) [
  | inl e ↦ absurd (ground arith)
  | inr e ↦ rw (e, split-append w t sep (ground arith)) refl
]

-- Split undoes the writing of the texts behind separators.
pub split-separated :
    (w : Text) (ws : List Text) (sep : ℕ)
    → Free sep w
    → All (Free sep) ws
    → split (w ++ separated ws sep) sep ≡ w ∷ ws
unfolding separated
split-separated w [] sep hw hs = ap (λ x. split x sep) (append-nil w) ∙ split_one w sep hw
split-separated w (v ∷ ws) sep hw (hv, hs) =
    split-append w (v ++ separated ws sep) sep hw ∙ ap (λ x. w ∷ x) (split-separated v ws sep hv hs)

push_first-Free :
    (c : ℕ) (ws : List Text) (sep : ℕ)
    → (c == sep) ≡ false
    → All (Free sep) ws
    → All (Free sep) (push_first c ws)
push_first-Free c [] sep e h = (rw e refl, tt)
push_first-Free c (w ∷ ws) sep e (h, hs) = (rw e h, hs)

-- The parts have no separator.
pub split-Free : (s : Text) (sep : ℕ) → All (Free sep) (split s sep)
unfolding split
split-Free [] sep = (refl, tt)
split-Free (c ∷ s) sep = elim (Bool-cases (c == sep)) [
  | inl e ↦ rw e (refl, split-Free s sep)
  | inr e ↦ rw e (push_first-Free c (split s sep) sep e (split-Free s sep))
]

last_index-Free : (w : Text) (sep : ℕ) → Free sep w → last_index w sep ≡ none
unfolding last_index
last_index-Free [] sep h = refl
last_index-Free (c ∷ w) sep h = elim (Bool-cases (c == sep)) [
  | inl e ↦ absurd (ground arith)
  | inr e ↦ rw (last_index-Free w sep (ground arith), e) refl
]

-- The last separator stands before the last part.
pub last_index-append :
    (s w : Text) (sep : ℕ) → Free sep w → last_index (s ++ sep ∷ w) sep ≡ some (length s)
unfolding last_index
last_index-append [] w sep h = rw (last_index-Free w sep h, (==_iff sep sep).1 refl) refl
last_index-append (c ∷ s) w sep h = rw (last_index-append s w sep h) refl
