-- ===== src/VirtualModels/Balanced.antt =====
-- balancedResolution of internal/virtualmodels/balancer.go: the target that a request through a
-- redirect goes to. What it meets is the record `Conditions`: the catalog, the capacity probe, the
-- health snapshots, the clock and the random numbers.
pub mod Picked
use thinroute.Prelude.{
  Bool, List, Option, [], get_elem?, if◌then◌else◌, length, map, none, pos, some, ℕ, ℤ, ◌%◌, ◌+◌,
  ◌^◌, ◌∷◌,
}
use thinroute.Balancer.{Weights, ResolvedTarget, viable_targets, supported_targets, weighted_index}
use thinroute.Clock.{Time}
use thinroute.Map.{lookup, Map, or_zero, insert}
use thinroute.Text.{Text, text_eq}
use thinroute.VirtualModels.{
  auto_strategy, strategy_cost, strategy_weighted, strategy_random, strategy_least_used,
  strategy_health_aware,
}
use thinroute.Balancer.LeastUsed.{next_target}
use thinroute.Balancer.Strategies.{
  Floats, Pricing, Health, cheapest_target, weighted_next_target, random_next_target,
  health_aware_next_target,
}

module _ (ws : Weights) (fl : Floats ws) where
  pub record Conditions : Type 0 where
    pub available : Option (Text → Bool)
    pub capacity : Option (Text → Bool)
    pub pricing : Pricing ws fl
    pub health : Health ws fl
    pub now : Time
    pub uniform : ws.F
    pub drawn : ℕ → Option ℕ

  -- The counters of the rotation for each source, and the state of the least-used balancer.
  pub record BalancerState : Type 0 where
    pub counters : Map ℕ
    pub in_flight : Map ℤ
    pub tie_counter : ℕ

  -- The answer: a target, of which the source answers the selector; none; or an index out of range.
  pub data Resolved : Type 0 where
    no_target target_panic : Resolved
    picked : ResolvedTarget ws → Resolved

  abbrev pub target_or_panic : Option (ResolvedTarget ws) → Resolved
  target_or_panic none = target_panic
  target_or_panic (some t) = picked t

  -- viable[index]
  abbrev pub at_index : List (ResolvedTarget ws) → ℕ → Resolved
  at_index viable index = target_or_panic (get_elem? viable index)

  abbrev pub count_or_zero : Option ℤ → ℤ
  count_or_zero none = pos 0
  count_or_zero (some n) = n

  -- loadCount
  unfoldable pub load_count : Map ℤ → ResolvedTarget ws → ℤ
  load_count in_flight t = count_or_zero (lookup t.qualified in_flight)

  abbrev pub at_least_used : List (ResolvedTarget ws) → Option ℕ → Resolved
  at_least_used viable none = target_panic
  at_least_used viable (some index) = at_index viable index

  -- The switch of balancedResolution.
  unfoldable pub by_strategy :
      Conditions
      → (source strategy : Text) → ResolvedTarget ws
      → List (ResolvedTarget ws)
      → BalancerState
      → Resolved × BalancerState
  by_strategy k source strategy t rest st =
      let viable = t ∷ rest in
      let least = next_target (map (load_count st.in_flight) viable) st.tie_counter in
      let counter = or_zero (lookup source st.counters) in
      if text_eq strategy strategy_cost
      then (picked (cheapest_target ws fl k.pricing t rest), st)
      else if text_eq strategy strategy_weighted
      then (at_index viable (weighted_next_target ws fl viable k.uniform), st)
      else if text_eq strategy strategy_random
      then (at_index viable (random_next_target ws fl viable (k.drawn (length viable))), st)
      else if text_eq strategy strategy_least_used
      then (at_least_used viable least.0, record st { tie_counter = least.1 })
      else if text_eq strategy strategy_health_aware
      then (at_index viable (health_aware_next_target ws fl k.health k.now viable k.uniform), st)
      else (
        at_index viable (weighted_index ws viable counter),
        record st { counters = insert source ((counter + 1) % 2 ^ 64) st.counters },
      )

  -- balancedResolution, among the viable targets.
  unfoldable pub choose :
      Conditions
      → (source strategy : Text) → List (ResolvedTarget ws)
      → BalancerState
      → Resolved × BalancerState
  choose k source strategy [] st = (no_target, st)
  choose k source strategy (t ∷ []) st = (picked t, st)
  choose k source strategy (t ∷ u ∷ rest) st =
      by_strategy k source (auto_strategy strategy) t (u ∷ rest) st

  -- balancedResolution
  unfoldable pub balanced_resolution :
      Conditions
      → (source strategy : Text) → List (ResolvedTarget ws)
      → BalancerState
      → Resolved × BalancerState
  balanced_resolution k source strategy targets st =
      choose k source strategy
        (viable_targets ws k.capacity (supported_targets ws k.available targets)) st
