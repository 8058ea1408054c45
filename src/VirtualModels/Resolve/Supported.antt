-- ===== src/VirtualModels/Resolve/Supported.antt =====
-- The targets that balancedResolution of internal/virtualmodels/balancer.go chooses among.
use thinroute.Balancer.Pools.{select-All}
use thinroute.Text.{Text}
use thinroute.Balancer.{
  Weights, ResolvedTarget, supported_targets, select, targets_with_capacity, viable_targets,
}
use thinroute.Prelude.{
  All, Bool, Bool-cases, List, Option, [], arith, false, get_elem?, if◌then◌else◌, inl, inr, length,
  none, not, refl, some, subst, suc, take, true, ℕ, ◌+◌, ◌==◌, ◌∷◌, ◌≡◌,
}

module _ (ws : Weights) where
  -- A target of the list, whose model the catalog has.
  abbrev pub Supported : (Text → Bool) → List (ResolvedTarget ws) → ResolvedTarget ws → Type 0
  Supported available targets t =
      ((i : ℕ) × (get_elem? targets i ≡ some t)) × (available t.qualified ≡ true)

  indices :
      (targets more : List (ResolvedTarget ws)) (n : ℕ)
      → ((i : ℕ) (t : ResolvedTarget ws)
          → get_elem? more i ≡ some t
          → get_elem? targets (n + i) ≡ some t)
      → All (λ t. (i : ℕ) × (get_elem? targets i ≡ some t)) more
  indices targets [] n f = tt
  indices targets (t ∷ more) n f = (
    (n + 0, f 0 t refl),
    indices targets more (n + 1)
        (λ i u e. subst (λ x. get_elem? targets x ≡ some u) (omega arith) (f (suc i) u e)),
  )

  pub supported_targets-Supported :
      (available : Text → Bool) (targets : List (ResolvedTarget ws))
      → All (Supported available targets) (supported_targets ws (some available) targets)
  unfolding supported_targets
  supported_targets-Supported available targets =
      select-All ws (λ t. (i : ℕ) × (get_elem? targets i ≡ some t)) (λ t. available t.qualified)
        targets
        (indices targets targets 0
          (λ i t e. subst (λ x. get_elem? targets x ≡ some t) (omega arith) e))

  module _ (Q : ResolvedTarget ws → Type 0) where
    selected :
        (p : ResolvedTarget ws → Bool) (ts : List (ResolvedTarget ws))
        → All Q ts
        → All Q (select ws p ts)
    selected p [] h = tt
    selected p (t ∷ ts) (q, h) = elim (Bool-cases (p t)) [
      | inl e ↦ rw e (q, selected p ts h)
      | inr e ↦ rw e (selected p ts h)
    ]

    first-All : (ts : List (ResolvedTarget ws)) → All Q ts → All Q (take 1 ts)
    first-All [] h = tt
    first-All (t ∷ ts) (q, h) = (q, tt)

    capacity-All :
        (capacity : Option (Text → Bool)) (ts : List (ResolvedTarget ws))
        → All Q ts
        → All Q (targets_with_capacity ws capacity ts)
    unfolding targets_with_capacity
    capacity-All none ts h = h
    capacity-All (some c) ts h = selected (λ t. c t.qualified) ts h

    if-All :
        (b : Bool) (ts us : List (ResolvedTarget ws))
        → All Q ts
        → All Q us
        → All Q (if b then ts else us)
    if-All true ts us h k = h
    if-All false ts us h k = k

    pub viable_targets-All :
        (capacity : Option (Text → Bool)) (supported : List (ResolvedTarget ws))
        → All Q supported
        → All Q (viable_targets ws capacity supported)
    unfolding viable_targets
    viable_targets-All capacity supported h =
        let primary = select ws (λ t. not t.fallback_only) supported in
        let fallback = select ws (λ t. t.fallback_only) supported in
        let pool = if length primary == 0 then fallback else primary in
        let viable = targets_with_capacity ws capacity pool in
        let pooled =
          if-All (length primary == 0) fallback primary
            (selected (λ t. t.fallback_only) supported h)
            (selected (λ t. not t.fallback_only) supported h) in
        if-All (length viable == 0) (take 1 pool) viable (first-All pool pooled)
          (capacity-All capacity pool pooled)
