-- ===== src/Balancer/LeastUsed.antt =====
-- internal/virtualmodels/leastused.go: LeastUsedBalancer.NextTarget. The in-flight counts of the
-- targets are a list: storing a zero for a target that has none changes no count. The
-- recursion of the loops is over this list.
pub mod Least
use thinroute.Prelude.{
  Bool, List, Option, [], get_elem?, if◌then◌else◌, length, ltb, ltb_ℤ, none, not, some, ℕ, ℤ, ◌%◌,
  ◌&&◌, ◌+◌, ◌-◌, ◌==◌, ◌^◌, ◌∷◌,
}

-- The loop for the lowest count: its index and the count.
unfoldable pub least_from : List ℤ → (index best_idx : ℕ) → ℤ → ℕ × ℤ
least_from [] index best_idx best = (best_idx, best)
least_from (c ∷ rest) index best_idx best =
    let lower = least_from rest (index + 1) index c in
    let on = least_from rest (index + 1) best_idx best in if ltb_ℤ c best then lower else on

abbrev eqb_ℤ : ℤ → ℤ → Bool
eqb_ℤ a b = not (ltb_ℤ a b) && not (ltb_ℤ b a)

-- The loop for the other targets with the lowest count.
unfoldable pub tied_from : List ℤ → (index best_idx : ℕ) → ℤ → List ℕ
tied_from [] index best_idx best = []
tied_from (c ∷ rest) index best_idx best =
    let others = tied_from rest (index + 1) best_idx best in
    if not (index == best_idx) && eqb_ℤ c best then index ∷ others else others

-- tied[int(slot)%len(tied)]; from 2 ^ 63 on, int(slot) is negative, and so is the remainder,
-- unless it is 0: `none` is the panic.
unfoldable pub tie_break : List ℕ → ℕ → Option ℕ
tie_break tied slot =
    if ltb slot (2 ^ 63)
    then get_elem? tied (slot % length tied)
    else if (2 ^ 64 - slot) % length tied == 0
    then get_elem? tied 0
    else none

-- The tie-break of NextTarget, after the loop for the lowest count.
break_ties : List ℤ → ℕ × ℤ → ℕ → Option ℕ × ℕ
unfolding tied_from tie_break
break_ties counts (best_idx, best) counter =
    let tied = best_idx ∷ tied_from counts 0 best_idx best in
    let slot = (counter + 1) % 2 ^ 64 in
    if ltb 1 (length tied) then (tie_break tied slot, slot) else (some best_idx, counter)

-- NextTarget: the index, and the counter after it, a uint64.
unfoldable pub next_target : List ℤ → ℕ → Option ℕ × ℕ
unfolding least_from break_ties
next_target [] counter = (some 0, counter)
next_target (c ∷ rest) counter = break_ties (c ∷ rest) (least_from rest 1 0 c) counter
