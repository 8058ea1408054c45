-- ===== src/Balancer/Strategies/Cheapest.antt =====
-- What cheapestTarget of internal/virtualmodels/balancer.go answers.
use mathlib.Core.Option.{some-injective}
use thinroute.Balancer.Strategies.{
  Floats, Pricing, cheapest_from, cheapest_target, target_cost, keep_cheaper, cheaper,
}
use thinroute.Balancer.{Weights, ResolvedTarget}
use thinroute.Prelude.{
  All, Bool-cases, List, Option, [], ap, arith, false, inl, inr, none, refl, some, subst, sym, true,
  ◌∙◌, ◌∷◌, ◌≡◌,
}

-- No target of the list has a lower cost than the best, which has a cost if one of them has.
abbrev pub Dear :
    (ws : Weights) (fl : Floats ws) → Pricing ws fl → Option ws.F → ResolvedTarget ws → Type 0
Dear ws fl pricing best t =
    (cost : ws.F)
    → target_cost ws fl pricing t ≡ some cost
    → (c : ws.F) × ((best ≡ some c) × (fl.lt cost c ≡ false))

-- What all targets have, the cheapest has.
module _ (ws : Weights) (fl : Floats ws) (pricing : Pricing ws fl)
    (Q : ResolvedTarget ws → Type 0) where
  keep_cheaper-All :
      (t : ResolvedTarget ws) (cost : Option ws.F) (best : ResolvedTarget ws × Option ws.F)
      → Q t
      → Q best.0
      → Q (keep_cheaper ws fl t cost best).0
  keep_cheaper-All t none (b, bc) q h = h
  keep_cheaper-All t (some cost) (b, bc) q h = elim (Bool-cases (cheaper ws fl cost bc)) [
    | inl y ↦ rw y q
    | inr n ↦ rw n h
  ]

  cheapest_from-All :
      (rest : List (ResolvedTarget ws)) (best : ResolvedTarget ws × Option ws.F)
      → All Q rest
      → Q best.0
      → Q (cheapest_from ws fl pricing rest best).0
  unfolding cheapest_from
  cheapest_from-All [] best h q = q
  cheapest_from-All (t ∷ rest) best (p, h) q =
      let cost = target_cost ws fl pricing t in
      cheapest_from-All rest (keep_cheaper ws fl t cost best) h (keep_cheaper-All t cost best p q)

  pub cheapest_target-All :
      (t : ResolvedTarget ws) (rest : List (ResolvedTarget ws))
      → All Q (t ∷ rest)
      → Q (cheapest_target ws fl pricing t rest)
  unfolding cheapest_target
  cheapest_target-All t rest (q, h) = cheapest_from-All rest (t, target_cost ws fl pricing t) h q

-- The order of the costs, where no cost is NaN.
module _ (ws : Weights) (fl : Floats ws) (lt_irrefl : (a : ws.F) → fl.lt a a ≡ false)
    (not_lt_trans : (a b c : ws.F) → fl.lt a b ≡ false → fl.lt c b ≡ true → fl.lt a c ≡ false)
    (pricing : Pricing ws fl) where
  -- The best of the loop is a target with its cost.
  abbrev Priced : ResolvedTarget ws × Option ws.F → Type 0
  Priced (t, cost) = target_cost ws fl pricing t ≡ cost

  keep_cheaper-Priced :
      (t : ResolvedTarget ws) (cost : Option ws.F) (best : ResolvedTarget ws × Option ws.F)
      → target_cost ws fl pricing t ≡ cost
      → Priced best
      → Priced (keep_cheaper ws fl t cost best)
  keep_cheaper-Priced t none (b, bc) e h = h
  keep_cheaper-Priced t (some cost) (b, bc) e h = elim (Bool-cases (cheaper ws fl cost bc)) [
    | inl y ↦ rw y e
    | inr n ↦ rw n h
  ]

  keep_cheaper-Dear :
      (t u : ResolvedTarget ws) (cost : Option ws.F) (best : ResolvedTarget ws × Option ws.F)
      → Dear ws fl pricing best.1 u
      → Dear ws fl pricing (keep_cheaper ws fl t cost best).1 u
  keep_cheaper-Dear t u none (b, bc) d = d
  keep_cheaper-Dear t u (some cost) (b, bc) d = elim (Bool-cases (cheaper ws fl cost bc)) [
    | inl y ↦ rw y (λ x e.
        let (c, (q, n)) = d x e in
        (cost, (refl, not_lt_trans x c cost n (sym (ap (cheaper ws fl cost) q) ∙ y))))
    | inr n ↦ rw n d
  ]

  keep_cheaper_self :
      (t : ResolvedTarget ws) (cost : Option ws.F) (best : ResolvedTarget ws × Option ws.F)
      → target_cost ws fl pricing t ≡ cost
      → Dear ws fl pricing (keep_cheaper ws fl t cost best).1 t
  keep_cheaper_self t none (b, bc) h x e = absurd (ground arith)
  keep_cheaper_self t (some cost) (b, none) h x e = (
    cost,
    (refl, subst (λ y. fl.lt y cost ≡ false) (some-injective cost x (sym h ∙ e)) (lt_irrefl cost)),
  )
  keep_cheaper_self t (some cost) (b, some c) h x e =
      let same = some-injective cost x (sym h ∙ e) in
      elim (Bool-cases (fl.lt cost c)) [
        | inl y ↦ rw y (cost, (refl, subst (λ z. fl.lt z cost ≡ false) same (lt_irrefl cost)))
        | inr n ↦ rw n (c, (refl, subst (λ z. fl.lt z c ≡ false) same n))
      ]

  cheapest_from-kept :
      (rest : List (ResolvedTarget ws)) (best : ResolvedTarget ws × Option ws.F)
      (u : ResolvedTarget ws)
      → Dear ws fl pricing best.1 u
      → Dear ws fl pricing (cheapest_from ws fl pricing rest best).1 u
  unfolding cheapest_from
  cheapest_from-kept [] best u d = d
  cheapest_from-kept (t ∷ rest) best u d =
      let cost = target_cost ws fl pricing t in
      cheapest_from-kept rest (keep_cheaper ws fl t cost best) u (keep_cheaper-Dear t u cost best d)

  cheapest_from-Dear :
      (rest : List (ResolvedTarget ws)) (best : ResolvedTarget ws × Option ws.F)
      → All (Dear ws fl pricing (cheapest_from ws fl pricing rest best).1) rest
  unfolding cheapest_from
  cheapest_from-Dear [] best = tt
  cheapest_from-Dear (t ∷ rest) best =
      let cost = target_cost ws fl pricing t in
      let next = keep_cheaper ws fl t cost best in
      (
        cheapest_from-kept rest next t (keep_cheaper_self t cost best refl),
        cheapest_from-Dear rest next,
      )

  cheapest_from-Priced :
      (rest : List (ResolvedTarget ws)) (best : ResolvedTarget ws × Option ws.F)
      → Priced best
      → Priced (cheapest_from ws fl pricing rest best)
  unfolding cheapest_from
  cheapest_from-Priced [] best h = h
  cheapest_from-Priced (t ∷ rest) best h =
      let cost = target_cost ws fl pricing t in
      cheapest_from-Priced rest (keep_cheaper ws fl t cost best)
        (keep_cheaper-Priced t cost best refl h)

  -- cheapestTarget answers a target with a price, if any of the targets has one, and none of them
  -- has a lower one. Conditions on the order of the costs: no cost is below itself; if a is not
  -- below b and c is below b, then a is not below c.
  pub cheapest_target-Dear :
      (t : ResolvedTarget ws) (rest : List (ResolvedTarget ws))
      → All
          (Dear ws fl pricing (target_cost ws fl pricing (cheapest_target ws fl pricing t rest)))
          (t ∷ rest)
  unfolding cheapest_target
  cheapest_target-Dear t rest =
      let start : ResolvedTarget ws × Option ws.F = (t, target_cost ws fl pricing t) in
      subst (λ x. All (Dear ws fl pricing x) (t ∷ rest))
        (sym (cheapest_from-Priced rest start refl))
        (
          cheapest_from-kept rest start t (λ x e. (x, (e, lt_irrefl x))),
          cheapest_from-Dear rest start,
        )
