-- ===== src/Text/Order.antt =====
-- Sorted lists of strings: sort.Strings.
use thinroute.Text.{text_lt, Text, text_eq}
use thinroute.Prelude.{
  All, Bool, Bool-cases, List, [], any, arith, false, if◌then◌else◌, inl, inr, refl, true, ◌∷◌, ◌≡◌,
}

-- a ≤ b and t ≤ a give t ≤ b.
pub text_le_trans : (t a b : Text) → text_lt a t ≡ false → text_lt b a ≡ false → text_lt b t ≡ false
unfolding text_lt
text_le_trans [] [] [] h k = refl
text_le_trans [] [] (z ∷ b) h k = refl
text_le_trans [] (y ∷ a) [] h k = refl
text_le_trans [] (y ∷ a) (z ∷ b) h k = refl
text_le_trans (x ∷ t) [] b h k = absurd (ground arith)
text_le_trans (x ∷ t) (y ∷ a) [] h k = absurd (ground arith)
text_le_trans (x ∷ t) (y ∷ a) (z ∷ b) h k = ground (arith, text_le_trans t a b)

pub text_lt_irrefl : (t : Text) → text_lt t t ≡ false
unfolding text_lt
text_lt_irrefl [] = refl
text_lt_irrefl (x ∷ t) = ground (arith, text_lt_irrefl t)

pub text_lt_asym : (a b : Text) → text_lt a b ≡ true → text_lt b a ≡ false
unfolding text_lt
text_lt_asym [] [] h = refl
text_lt_asym [] (y ∷ b) h = refl
text_lt_asym (x ∷ a) [] h = absurd (ground arith)
text_lt_asym (x ∷ a) (y ∷ b) h = ground (arith, text_lt_asym a b)

-- sort.Strings. Equal strings are the same, so every sort gives this list.
place_text : Text → List Text → List Text
place_text w [] = w ∷ []
place_text w (v ∷ vs) = if text_lt v w then v ∷ place_text w vs else w ∷ v ∷ vs

unfoldable pub sort_texts : List Text → List Text
unfolding place_text
sort_texts [] = []
sort_texts (w ∷ ws) = place_text w (sort_texts ws)

abbrev pub mem : Text → List Text → Bool
mem t ws = any (λ w. text_eq w t) ws

-- Each string is at most the ones after it.
abbrev pub Ordered : List Text → Type 0
Ordered [] = Unit
Ordered (w ∷ ws) = All (λ v. text_lt v w ≡ false) ws × Ordered ws

place_text-All :
    (P : Text → Type 0) (w : Text) (vs : List Text) → P w → All P vs → All P (place_text w vs)
unfolding place_text
place_text-All P w [] p h = (p, tt)
place_text-All P w (v ∷ vs) p (q, h) = elim (Bool-cases (text_lt v w)) [
  | inl e ↦ rw e (q, place_text-All P w vs p h)
  | inr e ↦ rw e (p, (q, h))
]

All-map :
    {A : Type 0} (P Q : A → Type 0) → ((x : A) → P x → Q x) → (xs : List A) → All P xs → All Q xs
All-map P Q f [] h = tt
All-map P Q f (x ∷ xs) (p, h) = (f x p, All-map P Q f xs h)

place_text-Ordered : (w : Text) (vs : List Text) → Ordered vs → Ordered (place_text w vs)
unfolding place_text
place_text-Ordered w [] o = (tt, tt)
place_text-Ordered w (v ∷ vs) (h, o) = elim (Bool-cases (text_lt v w)) [
  | inl e ↦ rw e (
    place_text-All (λ x. text_lt x v ≡ false) w vs (text_lt_asym v w e) h,
    place_text-Ordered w vs o,
  )
  | inr e ↦ rw e (
    (
      e,
      All-map (λ x. text_lt x v ≡ false) (λ x. text_lt x w ≡ false) (λ x q. text_le_trans w v x e q)
          vs h,
    ),
    (h, o),
  )
]

pub sort_texts-Ordered : (ws : List Text) → Ordered (sort_texts ws)
unfolding sort_texts
sort_texts-Ordered [] = tt
sort_texts-Ordered (w ∷ ws) = place_text-Ordered w (sort_texts ws) (sort_texts-Ordered ws)

place_text-mem : (t w : Text) (vs : List Text) → mem t (place_text w vs) ≡ mem t (w ∷ vs)
unfolding place_text
place_text-mem t w [] = refl
place_text-mem t w (v ∷ vs) = ground (arith, place_text-mem t w vs)

pub sort_texts-mem : (t : Text) (ws : List Text) → mem t (sort_texts ws) ≡ mem t ws
unfolding sort_texts
sort_texts-mem t [] = refl
sort_texts-mem t (w ∷ ws) = ground (arith, place_text-mem t w (sort_texts ws), sort_texts-mem t ws)

pub sort_texts-All : (P : Text → Type 0) (ws : List Text) → All P ws → All P (sort_texts ws)
unfolding sort_texts
sort_texts-All P [] h = tt
sort_texts-All P (w ∷ ws) (p, h) = place_text-All P w (sort_texts ws) p (sort_texts-All P ws h)
