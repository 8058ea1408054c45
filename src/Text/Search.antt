-- ===== src/Text/Search.antt =====
-- slices.BinarySearch on strings.
use thinroute.Text.Laws.{text_eq_iff, text_lt_total}
use thinroute.Text.Order.{Ordered, text_lt_irrefl, text_le_trans, mem}
use mathlib.Core.Option.{some-injective}
use thinroute.Text.{Text, text_lt, text_eq}
use thinroute.Prelude.{
  All, Bool, Bool-cases, List, Option, Option-cases, [], any, ap, arith, false, get_elem?,
  if◌then◌else◌, inl, inr, length, ltb, ltb→lt, none, refl, some, subst, suc, sym, true, zero, ℕ,
  ◌+◌, ◌/◌, ◌<◌, ◌∙◌, ◌∷◌, ◌≡◌, ◌≤◌,
}

-- The loop of slices.BinarySearch between i and j, with fuel; `none` when the fuel is spent.
search_loop : ℕ → (i j : ℕ) → List Text → Text → Option ℕ
search_loop zero i j ws t = if ltb i j then none else some i
search_loop (suc fuel) i j ws t =
    let h = (i + j) / 2 in
    let right = search_loop fuel (h + 1) j ws t in
    let left = search_loop fuel i h ws t in
    if ltb i j
    then elim (get_elem? ws h) [ some w ↦ if text_lt w t then right else left | none ↦ none ]
    else some i

abbrev is_text : Text → Option Text → Bool
is_text t none = false
is_text t (some w) = text_eq w t

found_at : List Text → Text → Option ℕ → Bool
found_at ws t none = false
found_at ws t (some i) = is_text t (get_elem? ws i)

-- slices.BinarySearch(ws, t): whether t is found.
unfoldable pub binary_search : List Text → Text → Bool
unfolding search_loop found_at
binary_search ws t = found_at ws t (search_loop (length ws) 0 (length ws) ws t)

module _ {ℓ} {A : Type ℓ} where
  pub All-get :
      (P : A → Type 0) (xs : List A) (k : ℕ) (x : A) → All P xs → get_elem? xs k ≡ some x → P x
  All-get P [] k x h e = absurd (ground arith)
  All-get P (y ∷ ys) zero x (p, h) e = subst P (some-injective y x e) p
  All-get P (y ∷ ys) (suc k) x (p, h) e = All-get P ys k x h e

  pub get-below : (xs : List A) (k : ℕ) → k < length xs → (x : A) × (get_elem? xs k ≡ some x)
  get-below [] k h = absurd (omega (arith, h))
  get-below (x ∷ xs) zero h = (x, refl)
  get-below (x ∷ xs) (suc k) h = get-below xs k (omega (arith, h))

  pub get-bound : (xs : List A) (k : ℕ) (x : A) → get_elem? xs k ≡ some x → k < length xs
  get-bound [] k x e = absurd (ground arith)
  get-bound (y ∷ xs) zero x e = omega arith
  get-bound (y ∷ xs) (suc k) x e = omega (arith, get-bound xs k x e)

  pub any-get :
      (p : A → Bool) (xs : List A) (k : ℕ) (x : A)
      → get_elem? xs k ≡ some x
      → p x ≡ true
      → any p xs ≡ true
  any-get p [] k x e h = absurd (ground arith)
  any-get p (y ∷ ys) zero x e h = ground (arith, ap p (some-injective y x e))
  any-get p (y ∷ ys) (suc k) x e h = ground (arith, any-get p ys k x e h)

  pub get-any :
      (p : A → Bool) (xs : List A)
      → any p xs ≡ true
      → (k : ℕ) × ((x : A) × ((get_elem? xs k ≡ some x) × (p x ≡ true)))
  get-any p [] h = absurd (ground arith)
  get-any p (y ∷ ys) h = elim (Bool-cases (p y)) [
    | inl e ↦ (0, (y, (refl, e)))
    | inr e ↦ let (k, r) = get-any p ys (ground arith) in (suc k, r)
  ]

Ordered-get :
    (ws : List Text) (i j : ℕ) (v w : Text)
    → Ordered ws
    → i ≤ j
    → get_elem? ws i ≡ some v
    → get_elem? ws j ≡ some w
    → text_lt w v ≡ false
Ordered-get [] i j v w h le a b = absurd (ground arith)
Ordered-get (x ∷ ws) zero zero v w h le a b =
    rw (sym (some-injective x v a)) (rw (sym (some-injective x w b)) (text_lt_irrefl x))
Ordered-get (x ∷ ws) zero (suc j) v w (h, o) le a b =
    subst (λ y. text_lt w y ≡ false) (some-injective x v a)
      (All-get (λ y. text_lt y x ≡ false) ws j w h b)
Ordered-get (x ∷ ws) (suc i) zero v w h le a b = absurd (omega (arith, le))
Ordered-get (x ∷ ws) (suc i) (suc j) v w (h, o) le a b =
    Ordered-get ws i j v w o (omega (arith, le)) a b

-- Every string before index r is below t, and none from r on is.
abbrev Split : List Text → Text → ℕ → Type 0
Split ws t r =
    ((k : ℕ) (w : Text) → k < r → get_elem? ws k ≡ some w → text_lt w t ≡ true)
    × ((k : ℕ) (w : Text) → r ≤ k → get_elem? ws k ≡ some w → text_lt w t ≡ false)

search_loop-done :
    (fuel i j : ℕ) (ws : List Text) (t : Text)
    → ltb i j ≡ false
    → search_loop fuel i j ws t ≡ some i
unfolding search_loop
search_loop-done zero i j ws t h = rw h refl
search_loop-done (suc fuel) i j ws t h = rw h refl

search_loop-left :
    (fuel i j : ℕ) (ws : List Text) (t w : Text)
    → ltb i j ≡ true
    → get_elem? ws ((i + j) / 2) ≡ some w
    → text_lt w t ≡ false
    → search_loop (suc fuel) i j ws t ≡ search_loop fuel i ((i + j) / 2) ws t
unfolding search_loop
search_loop-left fuel i j ws t w h e l = rw (h, e, l) refl

search_loop-right :
    (fuel i j : ℕ) (ws : List Text) (t w : Text)
    → ltb i j ≡ true
    → get_elem? ws ((i + j) / 2) ≡ some w
    → text_lt w t ≡ true
    → search_loop (suc fuel) i j ws t ≡ search_loop fuel ((i + j) / 2 + 1) j ws t
unfolding search_loop
search_loop-right fuel i j ws t w h e l = rw (h, e, l) refl

module _ (ws : List Text) (t : Text) (o : Ordered ws) where
  search_loop-Split :
      (fuel i j : ℕ)
      → j ≤ length ws
      → j ≤ i + fuel
      → ((k : ℕ) (w : Text) → k < i → get_elem? ws k ≡ some w → text_lt w t ≡ true)
      → ((k : ℕ) (w : Text) → j ≤ k → get_elem? ws k ≡ some w → text_lt w t ≡ false)
      → (r : ℕ) × ((search_loop fuel i j ws t ≡ some r) × Split ws t r)
  search_loop-Split zero i j le f below above = (
    i,
    (
      search_loop-done 0 i j ws t (ground (arith, f)),
      (below, λ k w h. above k w (omega (arith, f, h))),
    ),
  )
  search_loop-Split (suc fuel) i j le f below above = elim (Bool-cases (ltb i j)) [
    | inl b ↦
        let lt = ltb→lt i j b in
        let h = (i + j) / 2 in
        let (w, e) = get-below ws h (omega (arith, le, lt)) in
        elim (Bool-cases (text_lt w t)) [
          | inl l ↦
              let (r, (q, s)) =
                search_loop-Split fuel (h + 1) j le (omega (arith, f, lt))
                  (λ k v a g. elim (Bool-cases (text_lt v t)) [
                    | inl y ↦ y
                    | inr n ↦ absurd (
                        ground (
                          arith,
                          l,
                          text_le_trans t v w n (Ordered-get ws k h v w o (omega (arith, a)) g e),
                        ))
                  ])
                  above in
              (r, (search_loop-right fuel i j ws t w b e l ∙ q, s))
          | inr l ↦
              let (r, (q, s)) =
                search_loop-Split fuel i h (omega (arith, le, lt)) (omega (arith, f, lt)) below
                  (λ k v a g. text_le_trans t w v l (Ordered-get ws h k w v o a e g)) in
              (r, (search_loop-left fuel i j ws t w b e l ∙ q, s))
        ]
    | inr b ↦ (
      i,
      (search_loop-done (suc fuel) i j ws t b, (below, λ k w h. above k w (ground (arith, h)))),
    )
  ]

binary_search-at :
    (ws : List Text) (t : Text) (r : ℕ)
    → search_loop (length ws) 0 (length ws) ws t ≡ some r
    → binary_search ws t ≡ found_at ws t (some r)
unfolding binary_search
binary_search-at ws t r e = rw e refl

found_at-mem :
    (ws : List Text) (t : Text) (r : ℕ)
    → Ordered ws
    → Split ws t r
    → found_at ws t (some r) ≡ mem t ws
unfolding found_at
found_at-mem ws t r o (below, above) = elim (Option-cases (get_elem? ws r)) [
  | inl e ↦ elim (Bool-cases (mem t ws)) [
    | inl m ↦
        let (k, (w, (g, q))) = get-any (λ w. text_eq w t) ws m in
        let same : w ≡ t = (text_eq_iff w t).0 q in
        let (x, y) = get-below ws r (omega (arith, get-bound ws k w g, not_below k w g same)) in
        absurd (ground (arith, e, y))
    | inr m ↦ rw (e, m) refl
  ]
  | inr (v, e) ↦ elim (Bool-cases (text_eq v t)) [
    | inl q ↦ rw (e, q, any-get (λ w. text_eq w t) ws r v e q) refl
    | inr q ↦ elim (Bool-cases (mem t ws)) [
      | inl m ↦
          let (k, (w, (g, same_text))) = get-any (λ w. text_eq w t) ws m in
          let same : w ≡ t = (text_eq_iff w t).0 same_text in
          let le : text_lt t v ≡ false =
            subst (λ x. text_lt x v ≡ false) same
              (Ordered-get ws r k v w o (not_below k w g same) e g) in
          let eq : v ≡ t = text_lt_total v t (above r v (omega arith) e) le in
          absurd (ground (arith, (text_eq_iff v t).1 eq, q))
      | inr m ↦ rw (e, q, m) refl
    ]
  ]
]
  where
    not_below : (k : ℕ) (w : Text) → get_elem? ws k ≡ some w → w ≡ t → r ≤ k
    not_below k w g same = elim (Bool-cases (ltb k r)) [
      | inl l ↦ absurd (
          ground (
            arith,
            below k w (ltb→lt k r l) g,
            text_lt_irrefl t,
            subst (λ x. text_lt x t ≡ text_lt t t) (sym same) refl,
          ))
      | inr l ↦ ground arith
    ]

-- In a sorted list, slices.BinarySearch finds exactly the strings that stand in it; its loop ends
-- within as many turns as the list has strings.
pub binary_search-mem : (ws : List Text) (t : Text) → Ordered ws → binary_search ws t ≡ mem t ws
binary_search-mem ws t o =
    let (r, (e, s)) =
      search_loop-Split ws t o (length ws) 0 (length ws) (omega arith) (omega arith)
        (λ k w h. absurd (omega (arith, h)))
        (λ k w h g. absurd (omega (arith, h, get-bound ws k w g))) in
    binary_search-at ws t r e ∙ found_at-mem ws t r o s
