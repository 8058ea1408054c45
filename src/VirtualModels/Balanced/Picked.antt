-- ===== src/VirtualModels/Balanced/Picked.antt =====
-- Every strategy of internal/virtualmodels answers one of the viable targets.
use thinroute.Balancer.Pools.{roomy, Eligible, viable_targets-roomy, roomy-Eligible}
use thinroute.Prelude.{
  All, Bool-cases, List, Option, [], ap, arith, inl, inr, length, map, refl, some, ℕ, ◌+◌, ◌<◌, ◌^◌,
  ◌∙◌, ◌∷◌, ◌≡◌, ◌≤◌, Bool, subst, sym,
}
use thinroute.Balancer.{Weights, ResolvedTarget, supported_targets, viable_targets}
use thinroute.Map.{lookup, or_zero}
use thinroute.Text.{Text, text_eq}
use thinroute.VirtualModels.{
  auto_strategy, strategy_cost, strategy_weighted, strategy_random, strategy_least_used,
  strategy_health_aware,
}
use thinroute.Balancer.LeastUsed.{next_target}
use thinroute.Balancer.Rotation.{weighted_index-InShare}
use thinroute.Balancer.Strategies.{Floats, cheapest_target}
use thinroute.Text.Search.{get-below, All-get, get-bound}
use thinroute.VirtualModels.Balanced.{
  Resolved, at_index, at_least_used, by_strategy, choose, BalancerState, picked, Conditions,
  target_or_panic, load_count, balanced_resolution,
}
use thinroute.Balancer.LeastUsed.Least.{next_target-LeastAt}
use thinroute.Balancer.Strategies.Cheapest.{cheapest_target-All}
use thinroute.Balancer.Strategies.Draws.{
  weighted_next_target-bound, random_next_target-bound, health_aware_next_target-bound,
}

module _ (ws : Weights) (fl : Floats ws) (Q : ResolvedTarget ws → Type 0) where
  -- The answer is a target with Q.
  abbrev pub PickedOne : Resolved ws fl × BalancerState ws fl → Type 0
  PickedOne r = (t : ResolvedTarget ws) × ((r.0 ≡ picked t) × Q t)

  at_index-All :
      (viable : List (ResolvedTarget ws)) (index : ℕ)
      → All Q viable
      → index < length viable
      → (t : ResolvedTarget ws) × ((at_index ws fl viable index ≡ picked t) × Q t)
  at_index-All viable index h b =
      let (t, e) = get-below viable index b in
      (t, (ap (target_or_panic ws fl) e, All-get Q viable index t h e))

  at_least_used-All :
      (viable : List (ResolvedTarget ws)) (found : Option ℕ) (index : ℕ)
      → All Q viable
      → found ≡ some index
      → index < length viable
      → (t : ResolvedTarget ws) × ((at_least_used ws fl viable found ≡ picked t) × Q t)
  at_least_used-All viable found index h e b =
      let (t, (q, p)) = at_index-All viable index h b in
      (t, (ap (at_least_used ws fl viable) e ∙ q, p))

  length-map : {A B : Type 0} (f : A → B) (xs : List A) → length (map f xs) ≡ length xs
  length-map f [] = refl
  length-map f (x ∷ xs) = omega (arith, length-map f xs)

  by_strategy-PickedOne :
      (k : Conditions ws fl) (source strategy : Text) (t : ResolvedTarget ws)
      (rest : List (ResolvedTarget ws)) (st : BalancerState ws fl)
      → ((n i : ℕ) → k.drawn n ≡ some i → i < n)
      → st.tie_counter + 1 < 2 ^ 63
      → All Q (t ∷ rest)
      → PickedOne (by_strategy ws fl k source strategy t rest st)
  unfolding by_strategy
  by_strategy-PickedOne k source strategy t rest st drawn few h =
      let viable = t ∷ rest in
      let one : 1 ≤ length viable = omega arith in
      elim (Bool-cases (text_eq strategy strategy_cost)) [
        | inl e ↦ rw e (
          cheapest_target ws fl k.pricing t rest,
          (refl, cheapest_target-All ws fl k.pricing Q t rest h),
        )
        | inr e1 ↦ elim (Bool-cases (text_eq strategy strategy_weighted)) [
          | inl e ↦
              rw (e1, e)
                (at_index-All viable _ h (weighted_next_target-bound ws fl viable k.uniform one))
          | inr e2 ↦ elim (Bool-cases (text_eq strategy strategy_random)) [
            | inl e ↦
                rw (e1, e2, e)
                  (at_index-All viable _ h (
                    random_next_target-bound ws fl viable (k.drawn (length viable)) one
                      (drawn (length viable))))
            | inr e3 ↦ elim (Bool-cases (text_eq strategy strategy_least_used)) [
              | inl e ↦
                  let counts = map (load_count ws fl st.in_flight) viable in
                  let (j, (found, (c, (at, _)))) =
                    next_target-LeastAt (load_count ws fl st.in_flight t)
                      (map (load_count ws fl st.in_flight) rest) st.tie_counter few in
                  rw (e1, e2, e3, e)
                    (at_least_used-All viable (next_target counts st.tie_counter).0 j h found (
                      omega (
                        arith,
                        get-bound counts j c at,
                        length-map (load_count ws fl st.in_flight) viable,
                      )))
              | inr e4 ↦ elim (Bool-cases (text_eq strategy strategy_health_aware)) [
                | inl e ↦
                    rw (e1, e2, e3, e4, e)
                      (at_index-All viable _ h
                        (health_aware_next_target-bound ws fl k.health k.now viable k.uniform one))
                | inr e5 ↦
                    rw (e1, e2, e3, e4, e5)
                      (at_index-All viable _ h
                        (weighted_index-InShare ws viable (or_zero (lookup source st.counters))
                          one).below)
              ]
            ]
          ]
        ]
      ]

  -- Whatever the strategy of a redirect, balancedResolution answers one of the viable targets (so
  -- one with whatever they all have), and no strategy reads past their end. Conditions: there is a
  -- viable target, the random index is below the number that it is asked for, and the least-used
  -- balancer has broken fewer than 2 ^ 63 - 1 ties.
  pub choose-PickedOne :
      (k : Conditions ws fl) (source strategy : Text) (viable : List (ResolvedTarget ws))
      (st : BalancerState ws fl) (drawn : (n i : ℕ) → k.drawn n ≡ some i → i < n)
      (few : st.tie_counter + 1 < 2 ^ 63) (all_have : All Q viable)
      (some_viable : 1 ≤ length viable)
      → PickedOne (choose ws fl k source strategy viable st)
  unfolding choose
  choose-PickedOne k source strategy [] st drawn few h one = absurd (omega (arith, one))
  choose-PickedOne k source strategy (t ∷ []) st drawn few (q, h) one = (t, (refl, q))
  choose-PickedOne k source strategy (t ∷ u ∷ rest) st drawn few h one =
      by_strategy-PickedOne k source (auto_strategy strategy) t (u ∷ rest) st drawn few h

-- Whatever the strategy of a redirect, balancedResolution answers a target that is a primary one, has
-- capacity, and is among the supported ones (so it has whatever they all have), and no strategy
-- reads past their end. Conditions: there is a supported primary target with capacity, the random
-- index is below the number that it is asked for, and the least-used balancer has broken fewer than
-- 2 ^ 63 - 1 ties.
pub balanced_resolution-Eligible :
    (ws : Weights) (fl : Floats ws) (Q : ResolvedTarget ws → Type 0) (k : Conditions ws fl)
    (capacity : Text → Bool) (source strategy : Text) (targets : List (ResolvedTarget ws))
    (st : BalancerState ws fl) (probe : k.capacity ≡ some capacity)
    (drawn : (n i : ℕ) → k.drawn n ≡ some i → i < n) (few : st.tie_counter + 1 < 2 ^ 63)
    (all_have : All Q (supported_targets ws k.available targets))
    (some_room : 1 ≤ length (roomy ws capacity (supported_targets ws k.available targets)))
    → PickedOne ws fl
        (Eligible ws Q capacity)
        (balanced_resolution ws fl k source strategy targets st)
unfolding balanced_resolution
balanced_resolution-Eligible ws fl Q k capacity source strategy targets st probe drawn few h room =
    let supported = supported_targets ws k.available targets in
    let same : viable_targets ws k.capacity supported ≡ roomy ws capacity supported =
      ap (λ c. viable_targets ws c supported) probe
      ∙ viable_targets-roomy ws capacity supported room in
    subst (λ v. PickedOne ws fl (Eligible ws Q capacity) (choose ws fl k source strategy v st))
      (sym same)
      (choose-PickedOne ws fl (Eligible ws Q capacity) k source strategy
        (roomy ws capacity supported) st drawn few (roomy-Eligible ws Q capacity supported h) room)
