-- ===== src/Balancer/Pools.antt =====
-- Which targets a request may go to.
use thinroute.Prelude.{
  All, Bool, Bool-cases, List, Option, [], arith, false, get_elem?, inl, inr, leb, length, not,
  refl, some, suc, true, zero, ℕ, ◌<◌, ◌==◌, ◌∷◌, ◌≡◌, ◌≤◌,
}
use thinroute.Balancer.{
  Weights, ResolvedTarget, viable_targets, round_robin, select, targets_with_capacity,
  weighted_index,
}
use thinroute.Text.{Text}
use thinroute.Balancer.Rotation.{weighted_index-InShare}

module _ (ws : Weights) where
  -- What is selected from a list has what the list has, and passes the test.
  pub select-All :
      (Q : ResolvedTarget ws → Type 0) (p : ResolvedTarget ws → Bool)
      (targets : List (ResolvedTarget ws))
      → All Q targets
      → All (λ t. Q t × (p t ≡ true)) (select ws p targets)
  select-All Q p [] h = tt
  select-All Q p (t ∷ rest) (q, h) = elim (Bool-cases (p t)) [
    | inl e ↦ rw e ((q, e), select-All Q p rest h)
    | inr e ↦ rw e (select-All Q p rest h)
  ]

  All-map :
      (Q R : ResolvedTarget ws → Type 0) (targets : List (ResolvedTarget ws))
      → ((t : ResolvedTarget ws) → Q t → R t)
      → All Q targets
      → All R targets
  All-map Q R [] f h = tt
  All-map Q R (t ∷ rest) f (q, h) = (f t q, All-map Q R rest f h)

  get_elem?-All :
      (Q : ResolvedTarget ws → Type 0) (targets : List (ResolvedTarget ws)) (i : ℕ)
      → All Q targets
      → i < length targets
      → (t : ResolvedTarget ws) × ((get_elem? targets i ≡ some t) × Q t)
  get_elem?-All Q [] i h below = absurd (omega (arith, below))
  get_elem?-All Q (t ∷ rest) zero (q, h) below = (t, (refl, q))
  get_elem?-All Q (t ∷ rest) (suc i) (q, h) below = get_elem?-All Q rest i h (omega arith)

  -- The primary targets that have capacity.
  abbrev pub roomy : (Text → Bool) → List (ResolvedTarget ws) → List (ResolvedTarget ws)
  roomy capacity supported =
      select ws (λ t. capacity t.qualified) (select ws (λ t. not t.fallback_only) supported)

  select_some :
      (p : ResolvedTarget ws → Bool) (targets : List (ResolvedTarget ws))
      → 1 ≤ length (select ws p targets)
      → (length targets == 0) ≡ false
  select_some p [] h = absurd (omega (arith, h))
  select_some p (t ∷ rest) h = ground arith

  not_zero : (n : ℕ) → 1 ≤ n → (n == 0) ≡ false
  not_zero n h = ground arith

  pub viable_targets-roomy :
      (capacity : Text → Bool) (supported : List (ResolvedTarget ws))
      → 1 ≤ length (roomy capacity supported)
      → viable_targets ws (some capacity) supported ≡ roomy capacity supported
  unfolding viable_targets targets_with_capacity
  viable_targets-roomy capacity supported h =
      rw
        (select_some (λ t. capacity t.qualified) (select ws (λ t. not t.fallback_only) supported) h)
        (rw (not_zero (length (roomy capacity supported)) h) refl)

  -- The target, if there is one, that round_robin answers is among the viable ones.
  round_robin-All :
      (Q : ResolvedTarget ws → Type 0) (capacity : Option (Text → Bool))
      (supported : List (ResolvedTarget ws)) (counter : ℕ)
      → All Q (viable_targets ws capacity supported)
      → 1 ≤ length (viable_targets ws capacity supported)
      → (t : ResolvedTarget ws) × (((round_robin ws capacity supported counter).0 ≡ some t) × Q t)
  unfolding round_robin
  round_robin-All Q capacity supported counter h one =
      let viable = viable_targets ws capacity supported in
      elim (Bool-cases (leb (length viable) 1)) [
        | inl e ↦ rw e (get_elem?-All Q viable 0 h (omega (arith, one)))
        | inr e ↦ rw e (
            get_elem?-All Q viable (weighted_index ws viable counter) h
              (weighted_index-InShare ws viable counter one).below)
      ]

  abbrev pub Eligible : (ResolvedTarget ws → Type 0) → (Text → Bool) → ResolvedTarget ws → Type 0
  Eligible Q capacity t = Q t × ((t.fallback_only ≡ false) × (capacity t.qualified ≡ true))

  not-true : (b : Bool) → not b ≡ true → b ≡ false
  not-true b h = ground arith

  pub roomy-Eligible :
      (Q : ResolvedTarget ws → Type 0) (capacity : Text → Bool)
      (supported : List (ResolvedTarget ws))
      → All Q supported
      → All (Eligible Q capacity) (roomy capacity supported)
  roomy-Eligible Q capacity supported h =
      let primary = select ws (λ t. not t.fallback_only) supported in
      let first = select-All Q (λ t. not t.fallback_only) supported h in
      All-map (λ t. (Q t × (not t.fallback_only ≡ true)) × (capacity t.qualified ≡ true))
        (Eligible Q capacity) (roomy capacity supported)
        (λ t. λ r. (r.0.0, (not-true t.fallback_only r.0.1, r.1)))
        (select-All (λ t. Q t × (not t.fallback_only ≡ true)) (λ t. capacity t.qualified) primary
          first)

  -- The rotation answers a target that is a primary one, has capacity, and is among the supported
  -- ones (so it has whatever they all have). Condition: there is a primary target with capacity.
  pub round_robin-Eligible :
      (Q : ResolvedTarget ws → Type 0) (capacity : Text → Bool)
      (supported : List (ResolvedTarget ws)) (counter : ℕ) (all_have : All Q supported)
      (some_room : 1 ≤ length (roomy capacity supported))
      → (t : ResolvedTarget ws) × (((round_robin ws (some capacity) supported counter).0 ≡ some t)
          × Eligible Q capacity t)
  round_robin-Eligible Q capacity supported counter all_have some_room =
      let same = viable_targets-roomy capacity supported some_room in
      round_robin-All (Eligible Q capacity) (some capacity) supported counter
        (rw same (roomy-Eligible Q capacity supported all_have)) (rw same some_room)
