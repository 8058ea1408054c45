-- ===== src/Balancer/Strategies/Draws.antt =====
-- The indices of the strategies that draw a number are those of targets.
use thinroute.Prelude.{
  Bool-cases, List, Option, [], arith, inl, inr, leb, length, none, refl, some, ℕ, ◌+◌, ◌-◌, ◌<◌,
  ◌==◌, ◌∷◌, ◌≡◌, ◌≤◌,
}
use thinroute.Balancer.{Weights, ResolvedTarget}
use thinroute.Clock.{Time}
use thinroute.Map.{Map}
use thinroute.Balancer.Strategies.{
  Floats, weighted_from, healthy_from, weighted_next_target, health_aware_next_target,
  random_next_target, Health, weight_or_one, target_health, weights_from, health_weights,
  health_total,
}

module _ (ws : Weights) (fl : Floats ws) where
  weighted_from-bound :
      (targets : List (ResolvedTarget ws)) (index last : ℕ) (draw running : ws.F)
      → index + length targets ≤ last + 1
      → weighted_from ws fl targets index last draw running ≤ last
  unfolding weighted_from
  weighted_from-bound [] index last draw running h = omega arith
  weighted_from-bound (t ∷ rest) index last draw running h =
      let total = fl.add running (weight_or_one ws fl t) in
      elim (Bool-cases (fl.le draw total)) [
        | inl e ↦ rw e (omega (arith, h))
        | inr e ↦ rw e (weighted_from-bound rest (index + 1) last draw total (omega (arith, h)))
      ]

  healthy_from-bound :
      (health : Map ws.F) (targets : List (ResolvedTarget ws)) (index last : ℕ)
      (draw running : ws.F)
      → index + length targets ≤ last + 1
      → healthy_from ws fl health targets index last draw running ≤ last
  unfolding healthy_from
  healthy_from-bound health [] index last draw running h = omega arith
  healthy_from-bound health (t ∷ rest) index last draw running h =
      let total = fl.add running (target_health ws fl health t) in
      elim (Bool-cases (fl.lt draw total)) [
        | inl e ↦ rw e (omega (arith, h))
        | inr e ↦
            rw e (healthy_from-bound health rest (index + 1) last draw total (omega (arith, h)))
      ]

  pub weighted_next_target-bound :
      (targets : List (ResolvedTarget ws)) (uniform : ws.F)
      → 1 ≤ length targets
      → weighted_next_target ws fl targets uniform < length targets
  unfolding weighted_next_target
  weighted_next_target-bound targets uniform h =
      let draw = fl.times uniform (weights_from ws fl targets fl.zero_float) in
      let b =
        weighted_from-bound targets 0 (length targets - 1) draw fl.zero_float (omega (arith, h)) in
      elim (Bool-cases (length targets == 0)) [
        | inl e ↦ absurd (ground arith)
        | inr e ↦ rw e (omega (arith, b, h))
      ]

  pub health_aware_next_target-bound :
      (snapshots : Health ws fl) (now : Time) (targets : List (ResolvedTarget ws)) (uniform : ws.F)
      → 1 ≤ length targets
      → health_aware_next_target ws fl snapshots now targets uniform < length targets
  unfolding health_aware_next_target
  health_aware_next_target-bound snapshots now targets uniform h =
      let health = health_weights ws fl snapshots now [] in
      let total = health_total ws fl health targets fl.zero_float in
      let b =
        healthy_from-bound health targets 0 (length targets - 1) (fl.times uniform total)
          fl.zero_float (omega (arith, h)) in
      elim (Bool-cases (leb (length targets) 1)) [
        | inl e ↦ rw e h
        | inr e ↦ elim (Bool-cases (ws.not_positive total)) [
          | inl f ↦ rw (e, f) h
          | inr f ↦ rw (e, f) (omega (arith, b, h))
        ]
      ]

  pub random_next_target-bound :
      (targets : List (ResolvedTarget ws)) (index : Option ℕ)
      → 1 ≤ length targets
      → ((i : ℕ) → index ≡ some i → i < length targets)
      → random_next_target ws fl targets index < length targets
  unfolding random_next_target
  random_next_target-bound targets none h below = h
  random_next_target-bound targets (some i) h below = elim (Bool-cases (leb (length targets) 1)) [
    | inl e ↦ rw e h
    | inr e ↦ rw e (below i refl)
  ]
