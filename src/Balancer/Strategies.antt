-- ===== src/Balancer/Strategies.antt =====
-- The strategies of internal/virtualmodels besides the rotation: cheapestTarget of balancer.go,
-- weighted.go, random.go and healthaware.go. What float64 does more than in `Weights` is the
-- parameter `Floats`; a number that a random source draws is an argument.
pub mod Cheapest
pub mod Draws
use thinroute.Prelude.{
  Bool, List, Option, [], if◌then◌else◌, leb, length, ltb, none, some, true, ℕ, ◌*◌, ◌+◌, ◌-◌, ◌/◌,
  ◌==◌, ◌∷◌,
}
use thinroute.Balancer.{Weights, ResolvedTarget}
use thinroute.Clock.{Time, sub_time}
use thinroute.Map.{Map, insert, lookup}
use thinroute.Text.{Text, cut}

pub record Floats (ws : Weights) : Type 0 where
  pub zero_float : ws.F
  pub one_float : ws.F
  pub two_float : ws.F
  pub five_float : ws.F
  pub add : ws.F → ws.F → ws.F
  pub times : ws.F → ws.F → ws.F
  pub lt : ws.F → ws.F → Bool
  pub le : ws.F → ws.F → Bool

module _ (ws : Weights) (fl : Floats ws) where
  -- The prices of a model in the catalog, for input and output; `none` where the catalog has no
  -- model of the name, or no prices of it.
  abbrev pub Pricing : Type 0
  Pricing = Text → Option (Option ws.F × Option ws.F)

  abbrev add_price : ws.F → Option ws.F → ws.F
  add_price cost none = cost
  add_price cost (some price) = fl.add cost price

  abbrev cost_of : Option (Option ws.F × Option ws.F) → Option ws.F
  cost_of none = none
  cost_of (some (none, none)) = none
  cost_of (some (some input, output)) =
      some (add_price (add_price fl.zero_float (some input)) output)
  cost_of (some (none, some output)) = some (add_price fl.zero_float (some output))

  -- targetCost
  unfoldable pub target_cost : Pricing → ResolvedTarget ws → Option ws.F
  target_cost pricing target = cost_of (pricing target.qualified)

  -- `!bestPriced || cost < bestCost`
  abbrev pub cheaper : ws.F → Option ws.F → Bool
  cheaper cost none = true
  cheaper cost (some best_cost) = fl.lt cost best_cost

  -- The body of the loop of cheapestTarget, at the cost of the target.
  abbrev pub keep_cheaper :
      ResolvedTarget ws
      → Option ws.F
      → ResolvedTarget ws × Option ws.F
      → ResolvedTarget ws × Option ws.F
  keep_cheaper target none best = best
  keep_cheaper target (some cost) (best, best_cost) =
      if cheaper cost best_cost then (target, some cost) else (best, best_cost)

  -- The loop of cheapestTarget.
  unfoldable pub cheapest_from :
      Pricing
      → List (ResolvedTarget ws)
      → ResolvedTarget ws × Option ws.F
      → ResolvedTarget ws × Option ws.F
  cheapest_from pricing [] best = best
  cheapest_from pricing (t ∷ rest) best =
      cheapest_from pricing rest (keep_cheaper t (target_cost pricing t) best)

  -- cheapestTarget, on a first target and the others.
  unfoldable pub cheapest_target :
      Pricing → ResolvedTarget ws → List (ResolvedTarget ws) → ResolvedTarget ws
  cheapest_target pricing t rest = (cheapest_from pricing rest (t, target_cost pricing t)).0

  -- A weight that is not positive counts as 1.
  abbrev weight_or_one : ResolvedTarget ws → ws.F
  weight_or_one t = if ws.not_positive t.weight then fl.one_float else t.weight

  -- The first loop of WeightedBalancer.NextTarget.
  unfoldable pub weights_from : List (ResolvedTarget ws) → ws.F → ws.F
  weights_from [] total = total
  weights_from (t ∷ rest) total = weights_from rest (fl.add total (weight_or_one t))

  -- Its second loop, with the index of the last target.
  unfoldable pub weighted_from :
      List (ResolvedTarget ws) → (index last : ℕ) → (draw running : ws.F) → ℕ
  weighted_from [] index last draw running = last
  weighted_from (t ∷ rest) index last draw running =
      let total = fl.add running (weight_or_one t) in
      let on = weighted_from rest (index + 1) last draw total in
      if fl.le draw total then index else on

  -- WeightedBalancer.NextTarget, at what rand.Float64 gives.
  unfoldable pub weighted_next_target : List (ResolvedTarget ws) → (uniform : ws.F) → ℕ
  weighted_next_target targets uniform =
      let draw = fl.times uniform (weights_from targets fl.zero_float) in
      if length targets == 0
      then 0
      else weighted_from targets 0 (length targets - 1) draw fl.zero_float

  -- RandomBalancer.NextTarget, at what rand.Int gives; `none` is its error.
  unfoldable pub random_next_target : List (ResolvedTarget ws) → Option ℕ → ℕ
  random_next_target targets none = 0
  random_next_target targets (some index) = if leb (length targets) 1 then 0 else index

  -- What ProviderRuntimeSnapshot says of a provider: the last time that it was found available.
  abbrev pub Health : Type 0
  Health = List (Text × Option Time)

  -- healthWeight, with healthTimeout, 5 minutes.
  unfoldable pub health_weight : Option Time → Time → ws.F
  health_weight none now = fl.zero_float
  health_weight (some ok_at) now =
      if ltb (sub_time now ok_at) (5 * 60 * 1_000_000_000) then fl.five_float else fl.two_float

  -- The map from providers to weights; a later snapshot replaces an earlier one.
  unfoldable pub health_weights : Health → Time → Map ws.F → Map ws.F
  health_weights [] now m = m
  health_weights ((name, ok_at) ∷ rest) now m =
      health_weights rest now (insert name (health_weight ok_at now) m)

  abbrev provider_part : Text → Option (Text × Text) → Text
  provider_part qualified none = qualified
  provider_part qualified (some (provider, model)) = provider

  -- extractProvider
  unfoldable pub extract_provider : Text → Text
  extract_provider qualified = provider_part qualified (cut qualified b'/')

  abbrev or_none : Option ws.F → ws.F
  or_none none = fl.zero_float
  or_none (some w) = w

  -- The weight of a target, 0 where the loop goes on. The balancer of balancedResolution has no
  -- tracker of cooldowns.
  unfoldable pub target_health : Map ws.F → ResolvedTarget ws → ws.F
  target_health health t =
      let w = or_none (lookup (extract_provider t.qualified) health) in
      if ws.not_positive w then fl.zero_float else w

  -- The total of the positive weights.
  unfoldable pub health_total : Map ws.F → List (ResolvedTarget ws) → ws.F → ws.F
  health_total health [] total = total
  health_total health (t ∷ rest) total =
      let w = or_none (lookup (extract_provider t.qualified) health) in
      health_total health rest (if ws.not_positive w then total else fl.add total w)

  -- The loop over the weights of HealthAwareBalancer.NextTarget.
  unfoldable pub healthy_from :
      Map ws.F → List (ResolvedTarget ws) → (index last : ℕ) → (draw running : ws.F) → ℕ
  healthy_from health [] index last draw running = last
  healthy_from health (t ∷ rest) index last draw running =
      let total = fl.add running (target_health health t) in
      let on = healthy_from health rest (index + 1) last draw total in
      if fl.lt draw total then index else on

  -- HealthAwareBalancer.NextTarget, at what rand.Float64 gives.
  unfoldable pub health_aware_next_target :
      Health → Time → List (ResolvedTarget ws) → (uniform : ws.F) → ℕ
  health_aware_next_target snapshots now targets uniform =
      let health = health_weights snapshots now [] in
      let total = health_total health targets fl.zero_float in
      if leb (length targets) 1
      then 0
      else if ws.not_positive total
      then 0
      else healthy_from health targets 0 (length targets - 1) (fl.times uniform total) fl.zero_float
