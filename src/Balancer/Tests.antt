-- ===== src/Balancer/Tests.antt =====
-- Runs of the rotation, with whole numbers as weights.
use thinroute.Balancer.LeastUsed.Least.{LeastAt, next_target-LeastAt}
use thinroute.Balancer.LeastUsed.{next_target, least_from, tied_from, tie_break}
use thinroute.Text.{codes}
use thinroute.Balancer.Rotation.{InShare, weighted_index-InShare}
use thinroute.Balancer.{
  Weights, ResolvedTarget, weighted_index, total_weight, is_weighted, slot_index, normalize_weight,
}
use thinroute.Prelude.{
  Bool, List, String, [], arith, false, map, pos, refl, some, ℕ, ◌%◌, ◌==◌, ◌∷◌, ◌≡◌,
}

abbrev whole : Weights
whole = record { F = ℕ; not_positive = λ w. w == 0; rounded = λ w. w }

abbrev target : String → ℕ → Bool → ResolvedTarget whole
target model weight fallback_only = record {
  selector = record { model = codes model; provider = [] };
  qualified = codes model;
  weight = weight;
  fallback_only = fallback_only;
}

abbrev targets : List (ResolvedTarget whole)
targets = target "a" 2 false ∷ target "b" 0 false ∷ target "c" 3 false ∷ []

-- A round of six counters: shares 2, 1 and 3.
one_round :
    map (λ c. weighted_index whole targets c) (6 ∷ 7 ∷ 8 ∷ 9 ∷ 10 ∷ 11 ∷ [])
    ≡ 0 ∷ 0 ∷ 1 ∷ 2 ∷ 2 ∷ 2 ∷ []
unfolding weighted_index total_weight is_weighted slot_index normalize_weight
one_round = refl

weighted_index-InShare_example :
    InShare whole targets (10 % total_weight whole targets) (weighted_index whole targets 10)
weighted_index-InShare_example = weighted_index-InShare whole targets 10 (omega arith)

-- The counts 2, 1, 3 and 1: the tie-break turns from the last to the second target.
ties :
    (next_target (pos 2 ∷ pos 1 ∷ pos 3 ∷ pos 1 ∷ []) 0 ≡ (some 3, 1))
    × (next_target (pos 2 ∷ pos 1 ∷ pos 3 ∷ pos 1 ∷ []) 1 ≡ (some 1, 2))
unfolding next_target least_from tied_from tie_break
ties = (refl, refl)

next_target-LeastAt_example :
    (j : ℕ) × (((next_target (pos 2 ∷ pos 1 ∷ pos 3 ∷ pos 1 ∷ []) 0).0 ≡ some j)
      × LeastAt (pos 2 ∷ pos 1 ∷ pos 3 ∷ pos 1 ∷ []) j)
next_target-LeastAt_example =
    next_target-LeastAt (pos 2) (pos 1 ∷ pos 3 ∷ pos 1 ∷ []) 0 (omega arith)
