-- ===== src/Balancer.antt =====
-- internal/virtualmodels/balancer.go: the targets of a virtual model that a request may go to, and
-- the weighted rotation among them. A weight is a float64: its type, the test `weight <= 0` and the
-- rounding `int(weight + 0.5)` are the parameter `Weights`. Sums of weights are not bounded.
pub mod Rotation
pub mod Pools
pub mod LeastUsed
pub mod Strategies
mod Tests
use thinroute.Text.{Text}
use thinroute.Selector.{ModelSelector}
use thinroute.Prelude.{
  Bool, List, Option, [], false, get_elem?, if◌then◌else◌, leb, length, ltb, none, not, some, take,
  ℕ, ◌%◌, ◌+◌, ◌-◌, ◌==◌, ◌^◌, ◌||◌, ◌∷◌,
}

pub record Weights : Type 1 where
  pub F : Type 0
  pub not_positive : F → Bool
  pub rounded : F → ℕ

module _ (ws : Weights) where
  pub record ResolvedTarget : Type 0 where
    pub selector : ModelSelector
    pub qualified : Text
    pub weight : ws.F
    pub fallback_only : Bool

  -- normalizeWeight
  unfoldable pub normalize_weight : ws.F → ℕ
  normalize_weight weight =
      if ws.not_positive weight
      then 1
      else if ltb (ws.rounded weight) 1
      then 1
      else ws.rounded weight

  abbrev pub share : ResolvedTarget → ℕ
  share t = normalize_weight t.weight

  -- The total and whether a weight is not 1, as the first loop of weightedIndex sums them.
  unfoldable pub total_weight : List ResolvedTarget → ℕ
  total_weight [] = 0
  total_weight (t ∷ rest) = share t + total_weight rest

  unfoldable pub is_weighted : List ResolvedTarget → Bool
  is_weighted [] = false
  is_weighted (t ∷ rest) = not (share t == 1) || is_weighted rest

  -- The second loop of weightedIndex: the index of the target whose share the slot falls in, with
  -- `last` for the case that it falls in none. A slot below the share goes below 0.
  unfoldable pub slot_index : List ResolvedTarget → (slot index last : ℕ) → ℕ
  slot_index [] slot index last = last
  slot_index (t ∷ rest) slot index last =
      let on = slot_index rest (slot - share t) (index + 1) last in
      if ltb slot (share t) then index else on

  -- weightedIndex; `0` where the source divides by the number of no targets and panics.
  unfoldable pub weighted_index : List ResolvedTarget → ℕ → ℕ
  unfolding total_weight is_weighted slot_index
  weighted_index targets counter =
      if not (is_weighted targets) || (total_weight targets == 0)
      then counter % length targets
      else slot_index targets (counter % total_weight targets) 0 (length targets - 1)

  -- next: the counter of the source, which is advanced as a uint64.
  abbrev pub advance : ℕ → ℕ × ℕ
  advance counter = (counter, (counter + 1) % 2 ^ 64)

  abbrev pub select : (ResolvedTarget → Bool) → List ResolvedTarget → List ResolvedTarget
  select p [] = []
  select p (t ∷ rest) = let tail = select p rest in if p t then t ∷ tail else tail

  -- supportedTargets; without a catalog there are none.
  unfoldable pub supported_targets :
      Option (Text → Bool) → List ResolvedTarget → List ResolvedTarget
  supported_targets none targets = []
  supported_targets (some available) targets = select (λ t. available t.qualified) targets

  -- targetsWithCapacity
  unfoldable pub targets_with_capacity :
      Option (Text → Bool) → List ResolvedTarget → List ResolvedTarget
  targets_with_capacity none targets = targets
  targets_with_capacity (some capacity) targets = select (λ t. capacity t.qualified) targets

  -- The targets among which balancedResolution chooses by the strategy.
  unfoldable pub viable_targets : Option (Text → Bool) → List ResolvedTarget → List ResolvedTarget
  unfolding targets_with_capacity
  viable_targets capacity supported =
      let primary = select (λ t. not t.fallback_only) supported in
      let fallback = select (λ t. t.fallback_only) supported in
      let pool = if length primary == 0 then fallback else primary in
      let viable = targets_with_capacity capacity pool in
      if length viable == 0 then take 1 pool else viable

  -- The strategy round_robin of balancedResolution, which leaves a single target to no strategy.
  unfoldable pub round_robin :
      Option (Text → Bool) → List ResolvedTarget → ℕ → Option ResolvedTarget × ℕ
  unfolding viable_targets weighted_index
  round_robin capacity supported counter =
      let viable = viable_targets capacity supported in
      if leb (length viable) 1
      then (get_elem? viable 0, counter)
      else (get_elem? viable (weighted_index viable counter), (advance counter).1)
