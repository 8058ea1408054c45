-- ===== src/Balancer/Rotation.antt =====
-- Which target a counter of the weighted rotation stands for.
use thinroute.Balancer.{
  Weights, ResolvedTarget, normalize_weight, slot_index, is_weighted, total_weight, weighted_index,
  share,
}
use thinroute.Prelude.{
  Bool, Bool-cases, List, Option, [], arith, false, get_elem?, inl, inr, length, ltb, ltb→lt, none,
  not, refl, some, subst, suc, sym, take, true, zero, ℕ, ◌%◌, ◌+◌, ◌-◌, ◌<◌, ◌==◌, ◌||◌, ◌∷◌, ◌≡◌,
  ◌≤◌,
}

module _ (ws : Weights) where
  -- The shares of the targets ahead of an index.
  abbrev pub ahead : List (ResolvedTarget ws) → ℕ → ℕ
  ahead targets i = total_weight ws (take i targets)

  abbrev pub share_at : Option (ResolvedTarget ws) → ℕ
  share_at none = 0
  share_at (some t) = share ws t

  share_pos : (t : ResolvedTarget ws) → 1 ≤ share ws t
  unfolding normalize_weight
  share_pos t = ground arith

  slot_not_below : (a b : ℕ) → ltb a b ≡ false → b ≤ a
  slot_not_below a b h = ground arith

  -- A slot below the total falls in the share of the target at the answered distance.
  pub record InShare (targets : List (ResolvedTarget ws)) (slot i : ℕ) : Type 0 where
    pub below : i < length targets
    pub from : ahead targets i ≤ slot
    pub to : slot < ahead targets i + share_at (get_elem? targets i)

  slot_index-InShare :
      (targets : List (ResolvedTarget ws)) (slot index last : ℕ)
      → slot < total_weight ws targets
      → (i : ℕ) × ((slot_index ws targets slot index last ≡ index + i) × InShare targets slot i)
  unfolding slot_index total_weight
  slot_index-InShare [] slot index last h = ground arith
  slot_index-InShare (t ∷ rest) slot index last h = elim (Bool-cases (ltb slot (share ws t))) [
    | inl e ↦ rw e (
      0,
      (
        omega arith,
        record {
          below = omega arith;
          from = omega arith;
          to = omega (arith, ltb→lt slot (share ws t) e);
        },
      ),
    )
    | inr e ↦
        let (i, (answered, inside)) =
          slot_index-InShare rest (slot - share ws t) (index + 1) last
            (omega (arith, slot_not_below slot (share ws t) e)) in
        rw e (
          suc i,
          (
            omega (arith, answered),
            record {
              below = omega (arith, inside.below);
              from = omega (arith, inside.from, slot_not_below slot (share ws t) e);
              to = omega (arith, inside.to, slot_not_below slot (share ws t) e);
            },
          ),
        )
  ]

  -- Without weights every share is 1.
  even_shares :
      (targets : List (ResolvedTarget ws)) (i : ℕ)
      → is_weighted ws targets ≡ false
      → i < length targets
      → InShare targets i i
  unfolding is_weighted total_weight
  even_shares [] i h below = ground arith
  even_shares (t ∷ rest) zero h below = record {
    below = below;
    from = omega arith;
    to = ground (arith, share_pos t);
  }
  even_shares (t ∷ rest) (suc i) h below =
      let one : share ws t ≡ 1 = ground arith in
      let inside = even_shares rest i (ground arith) (omega arith) in
      record {
        below = below;
        from = omega (arith, inside.from, one);
        to = omega (arith, inside.to, one);
      }

  even_total :
      (targets : List (ResolvedTarget ws))
      → is_weighted ws targets ≡ false
      → total_weight ws targets ≡ length targets
  unfolding is_weighted total_weight
  even_total [] h = refl
  even_total (t ∷ rest) h = ground (arith, even_total rest)

  total_pos :
      (targets : List (ResolvedTarget ws)) → 1 ≤ length targets → 1 ≤ total_weight ws targets
  unfolding total_weight
  total_pos [] h = h
  total_pos (t ∷ rest) h = omega (arith, share_pos t)

  unweighted : (b : Bool) (total : ℕ) → (not b || (total == 0)) ≡ true → 1 ≤ total → b ≡ false
  unweighted b total h k = ground arith

  -- The counter, modulo the sum of the shares, falls in the share of the target that the rotation
  -- answers: at or past the shares of the targets ahead of it, and short of those and its own.
  -- Condition: there is a target.
  pub weighted_index-InShare :
      (targets : List (ResolvedTarget ws)) (counter : ℕ) (some_target : 1 ≤ length targets)
      → InShare targets (counter % total_weight ws targets) (weighted_index ws targets counter)
  unfolding weighted_index
  weighted_index-InShare targets counter some_target =
      let total = total_weight ws targets in
      let positive = total_pos targets some_target in
      let slot : counter % total < total = omega (arith, positive) in
      elim (Bool-cases (not (is_weighted ws targets) || (total == 0))) [
        | inl e ↦
            let even = unweighted (is_weighted ws targets) total e positive in
            rw e (
              rw (even_total targets even)
                (even_shares targets (counter % length targets) even (omega (arith, some_target))))
        | inr e ↦
            let (i, (answered, inside)) =
              slot_index-InShare targets (counter % total) 0 (length targets - 1) slot in
            let same : slot_index ws targets (counter % total) 0 (length targets - 1) ≡ i =
              omega (arith, answered) in
            rw e (subst (InShare targets (counter % total)) (sym same) inside)
      ]
