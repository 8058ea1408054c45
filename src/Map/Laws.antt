-- ===== src/Map/Laws.antt =====
-- Laws of the maps.
use mathlib.Core.Option.{some-injective}
use thinroute.Prelude.{
  All, Bool-cases, Option, [], ap, arith, false, if◌then◌else◌, inl, inr, length, none, refl, some,
  subst, sym, ℕ, ◌+◌, ◌∙◌, ◌∷◌, ◌≡◌, ◌≤◌,
}
use thinroute.Map.{lookup, Map, remove, insert, sum, keys, or_zero}
use thinroute.Text.{Text, text_eq}
use thinroute.Text.Laws.{text_eq_refl, text_eq_iff}

module _ {V : Type 0} where
  pub lookup-remove :
      (k j : Text) (m : Map V) → lookup j (remove k m) ≡ (if text_eq k j then none else lookup j m)
  unfolding lookup remove
  lookup-remove k j [] = ground arith
  lookup-remove k j ((i, v) ∷ m) =
      ground (arith, text_eq_iff i k, text_eq_iff k j, text_eq_iff i j, lookup-remove k j m)

  pub lookup-insert :
      (k j : Text) (v : V) (m : Map V)
      → lookup j (insert k v m) ≡ (if text_eq k j then some v else lookup j m)
  unfolding lookup insert
  lookup-insert k j v m = ground (arith, lookup-remove k j m)

  -- Each key has one entry.
  abbrev pub Unique : Map V → Type 0
  Unique [] = Unit
  Unique ((k, v) ∷ m) = (lookup k m ≡ none) × Unique m

  pub remove_absent : (k : Text) (m : Map V) → lookup k m ≡ none → remove k m ≡ m
  unfolding lookup remove
  remove_absent k [] h = refl
  remove_absent k ((j, v) ∷ m) h = ground (arith, remove_absent k m)

  pub remove-Unique : (k : Text) (m : Map V) → Unique m → Unique (remove k m)
  unfolding remove
  remove-Unique k [] u = tt
  remove-Unique k ((j, v) ∷ m) (a, u) = elim (Bool-cases (text_eq j k)) [
    | inl e ↦ rw e (remove-Unique k m u)
    | inr e ↦ rw e (ground (arith, lookup-remove k j m), remove-Unique k m u)
  ]

  pub insert-Unique : (k : Text) (v : V) (m : Map V) → Unique m → Unique (insert k v m)
  unfolding insert
  insert-Unique k v m u = (ground (arith, lookup-remove k k m, text_eq_refl k), remove-Unique k m u)

  abbrev pub counts : Option V → ℕ
  counts none = 0
  counts (some _) = 1

  pub length-remove :
      (k : Text) (m : Map V) → Unique m → length (remove k m) + counts (lookup k m) ≡ length m
  unfolding lookup remove
  length-remove k [] u = refl
  length-remove k ((j, v) ∷ m) (a, u) = elim (Bool-cases (text_eq j k)) [
    | inl e ↦
        let same : j ≡ k = (text_eq_iff j k).0 e in
        let gone : lookup k m ≡ none = rw same at a in rw (e, remove_absent k m gone) (omega arith)
    | inr e ↦ rw e (omega (arith, length-remove k m u))
  ]

pub lookup-remove_self : {V : Type 0} (k : Text) (m : Map V) → lookup k (remove k m) ≡ none
lookup-remove_self k m = ground (arith, lookup-remove k k m, text_eq_refl k)

pub lookup-insert_self :
    {V : Type 0} (k : Text) (v : V) (m : Map V) → lookup k (insert k v m) ≡ some v
lookup-insert_self k v m = ground (arith, lookup-insert k k v m, text_eq_refl k)

-- An entry that is left has another key than the one that was removed.
pub remove-All :
    {V : Type 0} (P : Text × V → Type 0) (k : Text) (m : Map V)
    → All P m
    → All (λ e. P e × (text_eq e.0 k ≡ false)) (remove k m)
unfolding remove
remove-All P k [] h = tt
remove-All P k ((j, v) ∷ m) (p, h) = elim (Bool-cases (text_eq j k)) [
  | inl e ↦ rw e (remove-All P k m h)
  | inr e ↦ rw e ((p, e), remove-All P k m h)
]

-- Where all keys are one key there is one entry at most.
pub one_key-length :
    {V : Type 0} (k : Text) (m : Map V) → Unique m → All (λ e. e.0 ≡ k) m → length m ≤ 1
unfolding lookup
one_key-length k [] u h = omega arith
one_key-length k ((j, v) ∷ []) u h = omega arith
one_key-length k ((j, v) ∷ (i, w) ∷ m) (a, u) (p, (q, h)) = absurd (ground (arith, text_eq_iff i j))

pub one_key-sum :
    (k : Text) (m : Map ℕ) → Unique m → All (λ e. e.0 ≡ k) m → sum m ≤ or_zero (lookup k m)
unfolding lookup sum
one_key-sum k [] u h = omega arith
one_key-sum k ((j, v) ∷ []) u h = ground (arith, text_eq_iff j k)
one_key-sum k ((j, v) ∷ (i, w) ∷ m) (a, u) (p, (q, h)) = absurd (ground (arith, text_eq_iff i j))

pub sum-remove : (k : Text) (m : Map ℕ) → Unique m → sum (remove k m) + or_zero (lookup k m) ≡ sum m
unfolding lookup remove sum
sum-remove k [] u = refl
sum-remove k ((j, v) ∷ m) (a, u) = elim (Bool-cases (text_eq j k)) [
  | inl e ↦
      let same : j ≡ k = (text_eq_iff j k).0 e in
      let gone : lookup k m ≡ none = rw same at a in rw (e, remove_absent k m gone) (omega arith)
  | inr e ↦ rw e (omega (arith, sum-remove k m u))
]

-- Two maps with the same keys, in the same order.
module _ {V W : Type 0} where
  abbrev pub SameKeys : Map V → Map W → Type 0
  SameKeys m n = keys m ≡ keys n

  pub remove-SameKeys :
      (k : Text) (m : Map V) (n : Map W) → SameKeys m n → SameKeys (remove k m) (remove k n)
  unfolding remove
  remove-SameKeys k [] [] h = refl
  remove-SameKeys k [] (_ ∷ _) h = cc
  remove-SameKeys k (_ ∷ _) [] h = cc
  remove-SameKeys k ((i, v) ∷ m) ((j, w) ∷ n) h =
      let head : i ≡ j = cc in
      let tail : keys m ≡ keys n = cc in
      elim (Bool-cases (text_eq j k)) [
        | inl e ↦ rw (head, e) (remove-SameKeys k m n tail)
        | inr e ↦ rw (head, e) (ap (λ r. j ∷ r) (remove-SameKeys k m n tail))
      ]

  pub lookup-SameKeys :
      (k : Text) (m : Map V) (n : Map W) → SameKeys m n → lookup k m ≡ none → lookup k n ≡ none
  unfolding lookup
  lookup-SameKeys k [] [] h e = refl
  lookup-SameKeys k [] (_ ∷ _) h e = cc
  lookup-SameKeys k (_ ∷ _) [] h e = cc
  lookup-SameKeys k ((i, v) ∷ m) ((j, w) ∷ n) h e =
      let head : i ≡ j = cc in
      let tail : keys m ≡ keys n = cc in ground (arith, lookup-SameKeys k m n tail)

-- What holds of the keys of one map holds of those of another map with the same keys.
pub All-SameKeys :
    {V W : Type 0} (P : Text → Type 0) (m : Map V) (n : Map W)
    → SameKeys m n
    → All (λ e. P e.0) m
    → All (λ e. P e.0) n
All-SameKeys P [] [] h a = tt
All-SameKeys P [] (_ ∷ _) h a = cc
All-SameKeys P (_ ∷ _) [] h a = cc
All-SameKeys P ((i, v) ∷ m) ((j, w) ∷ n) h (p, a) =
    let head : i ≡ j = cc in
    let tail : keys m ≡ keys n = cc in (rw head at p, All-SameKeys P m n tail a)

remove_keeps-All :
    {V : Type 0} (P : Text × V → Type 0) (k : Text) (m : Map V) → All P m → All P (remove k m)
unfolding remove
remove_keeps-All P k [] h = tt
remove_keeps-All P k ((j, v) ∷ m) (p, h) = elim (Bool-cases (text_eq j k)) [
  | inl e ↦ rw e (remove_keeps-All P k m h)
  | inr e ↦ rw e (p, remove_keeps-All P k m h)
]

pub insert-All :
    {V : Type 0} (P : Text × V → Type 0) (k : Text) (v : V) (m : Map V)
    → P (k, v)
    → All P m
    → All P (insert k v m)
unfolding insert
insert-All P k v m p h = (p, remove_keeps-All P k m h)

pub lookup-All :
    {V : Type 0} (P : Text × V → Type 0) (k : Text) (v : V) (m : Map V)
    → All P m
    → lookup k m ≡ some v
    → P (k, v)
unfolding lookup
lookup-All P k v [] h e = absurd (ground arith)
lookup-All P k v ((j, w) ∷ m) (p, h) e = elim (Bool-cases (text_eq j k)) [
  | inl b ↦
      let same : w ≡ v = some-injective w v (sym (rw b refl) ∙ e) in
      subst (λ x. P (x, v)) ((text_eq_iff j k).0 b) (subst (λ x. P (j, x)) same p)
  | inr b ↦ lookup-All P k v m h (sym (rw b refl) ∙ e)
]
