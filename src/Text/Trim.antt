-- ===== src/Text/Trim.antt =====
-- Laws of strings.TrimSpace and strings.Cut.
use thinroute.Prelude.{
  Bool, Bool-cases, List, Option, [], any, ap, arith, false, if◌then◌else◌, inl, inr, none, not,
  refl, reverse, some, sym, true, ℕ, ◌++◌, ◌==◌, ◌||◌, ◌↔◌, ◌∙◌, ◌∷◌, ◌≡◌,
}
use thinroute.Text.{Text, trim_left, is_space, trim_space, cut, is_empty, prepend}
use mathlib.Core.List.{reverse-append, reverse-reverse, reverse-cons}

-- No space at the front; the empty text has none.
unfoldable pub solid : Text → Bool
solid [] = true
solid (c ∷ s) = not (is_space c)

-- No space at either end.
abbrev pub Trimmed : Text → Type 0
Trimmed s = (solid s ≡ true) × (solid (reverse s) ≡ true)

trim_left-solid : (s : Text) → solid (trim_left s) ≡ true
unfolding trim_left solid
trim_left-solid [] = refl
trim_left-solid (c ∷ s) = ground (arith, trim_left-solid s)

solid-trim_left : (s : Text) → solid s ≡ true → trim_left s ≡ s
unfolding trim_left solid
solid-trim_left [] h = refl
solid-trim_left (c ∷ s) h = ground arith

-- What trimming takes off.
spaces : Text → Text
unfolding is_space
spaces [] = []
spaces (c ∷ s) = if is_space c then c ∷ spaces s else []

spaces-append : (s : Text) → s ≡ spaces s ++ trim_left s
unfolding trim_left spaces
spaces-append [] = refl
spaces-append (c ∷ s) = elim (Bool-cases (is_space c)) [
  | inl h ↦ rw h (ap (λ r. c ∷ r) (spaces-append s))
  | inr h ↦ rw h refl
]

solid-prefix : (s t : Text) → solid (s ++ t) ≡ true → solid s ≡ true
unfolding solid
solid-prefix [] t h = refl
solid-prefix (c ∷ s) t h = h

pub trim_space-Trimmed : (s : Text) → Trimmed (trim_space s)
unfolding trim_space
trim_space-Trimmed s =
    let u = trim_left s in
    let v = trim_left (reverse u) in
    let parts : u ≡ reverse v ++ reverse (spaces (reverse u)) =
      sym (reverse-reverse u)
      ∙ (ap reverse (spaces-append (reverse u)) ∙ reverse-append (spaces (reverse u)) v) in
    (
      solid-prefix (reverse v) (reverse (spaces (reverse u)))
          (ap solid (sym parts) ∙ trim_left-solid s),
      ap solid (reverse-reverse v) ∙ trim_left-solid (reverse u),
    )

pub Trimmed-trim_space : (s : Text) → Trimmed s → trim_space s ≡ s
unfolding trim_space
Trimmed-trim_space s (front, back) =
    rw (solid-trim_left s front) (rw (solid-trim_left (reverse s) back) (reverse-reverse s))

solid-append : (s t : Text) → is_empty s ≡ false → solid s ≡ true → solid (s ++ t) ≡ true
unfolding solid
solid-append [] t h k = ground arith
solid-append (c ∷ s) t h k = k

append-is_empty : (s t : Text) → is_empty t ≡ false → is_empty (s ++ t) ≡ false
append-is_empty [] t h = h
append-is_empty (c ∷ s) t h = refl

pub append_left-is_empty : (s t : Text) → is_empty s ≡ false → is_empty (s ++ t) ≡ false
append_left-is_empty [] t h = ground (arith, h)
append_left-is_empty (c ∷ s) t h = refl

reverse-is_empty : (s : Text) → is_empty s ≡ false → is_empty (reverse s) ≡ false
reverse-is_empty [] h = h
reverse-is_empty (c ∷ s) h =
    ap is_empty (reverse-cons c s) ∙ append-is_empty (reverse s) (c ∷ []) refl

pub Trimmed-append :
    (s t r : Text)
    → is_empty s ≡ false
    → is_empty t ≡ false
    → Trimmed s
    → Trimmed t
    → Trimmed (s ++ (r ++ t))
Trimmed-append s t r hs ht (s_front, s_back) (t_front, t_back) = (
  solid-append s (r ++ t) hs s_front,
  ap solid (reverse-append s (r ++ t) ∙ ap (λ x. x ++ reverse s) (reverse-append r t))
      ∙ solid-append (reverse t ++ reverse r) (reverse s)
          (append_left-is_empty (reverse t) (reverse r) (reverse-is_empty t ht))
          (solid-append (reverse t) (reverse r) (reverse-is_empty t ht) t_back),
)

prepend-none : (c : ℕ) (o : Option (Text × Text)) → prepend c o ≡ none → o ≡ none
prepend-none c none h = refl
prepend-none c (some x) h = ground (arith, h)

-- The separator that follows a text without it is the first.
pub cut-append : (s t : Text) (sep : ℕ) → cut s sep ≡ none → cut (s ++ sep ∷ t) sep ≡ some (s, t)
unfolding cut
cut-append [] t sep h = ground arith
cut-append (c ∷ s) t sep h = ground (arith, cut-append s t sep, prepend-none c (cut s sep))

abbrev pub before_cut : Option (Text × Text) → Text
before_cut none = []
before_cut (some (before, rest)) = before

cut-prepend :
    (c sep : ℕ) (o : Option (Text × Text))
    → (c == sep) ≡ false
    → cut (before_cut o) sep ≡ none
    → cut (before_cut (prepend c o)) sep ≡ none
unfolding cut
cut-prepend c sep none ne h = refl
cut-prepend c sep (some (before, rest)) ne h = rw ne (rw h refl)

-- What stands before the first separator has none.
pub cut-before_cut : (s : Text) (sep : ℕ) → cut (before_cut (cut s sep)) sep ≡ none
unfolding cut
cut-before_cut [] sep = refl
cut-before_cut (c ∷ s) sep = elim (Bool-cases (c == sep)) [
  | inl h ↦ rw h refl
  | inr h ↦ rw h (cut-prepend c sep (cut s sep) h (cut-before_cut s sep))
]

module _ {ℓ} {A : Type ℓ} (p : A → Bool) where
  any-append : (s t : List A) → any p (s ++ t) ≡ (any p s || any p t)
  any-append [] t = refl
  any-append (c ∷ s) t = ground (arith, any-append s t)

  any-reverse : (s : List A) → any p (reverse s) ≡ any p s
  any-reverse [] = refl
  any-reverse (c ∷ s) =
      ap (any p) (reverse-cons c s) ∙ ground (arith, any-append (reverse s) (c ∷ []), any-reverse s)

cut-none : (s : Text) (sep : ℕ) → (cut s sep ≡ none) ↔ (any (λ c. c == sep) s ≡ false)
unfolding cut
cut-none [] sep = ground arith
cut-none (c ∷ s) sep = elim (Bool-cases (c == sep)) [
  | inl h ↦ rw h (ground arith)
  | inr h ↦ rw h (
    (λ e. (cut-none s sep).0 (prepend-none c (cut s sep) e)),
    (λ e. rw ((cut-none s sep).1 e) refl),
  )
]

any-trim_left : (p : ℕ → Bool) (s : Text) → any p s ≡ false → any p (trim_left s) ≡ false
unfolding trim_left
any-trim_left p [] h = h
any-trim_left p (c ∷ s) h = ground (arith, any-trim_left p s)

pub trim_space-any : (p : ℕ → Bool) (s : Text) → any p s ≡ false → any p (trim_space s) ≡ false
unfolding trim_space
trim_space-any p s h =
    let u = trim_left s in
    any-reverse p (trim_left (reverse u))
    ∙ any-trim_left p (reverse u) (any-reverse p u ∙ any-trim_left p s h)

pub trim_space-cut : (s : Text) (sep : ℕ) → cut s sep ≡ none → cut (trim_space s) sep ≡ none
trim_space-cut s sep h =
    (cut-none (trim_space s) sep).1 (trim_space-any (λ c. c == sep) s ((cut-none s sep).0 h))
