-- ===== src/Balancer/LeastUsed/Least.antt =====
-- NextTarget answers a target with a lowest count.
use thinroute.Balancer.LeastUsed.{least_from, eqb_ℤ, tied_from, tie_break, break_ties, next_target}
use mathlib.Core.List.{append_assoc}
use thinroute.Prelude.{
  All, All-append, Bool-cases, List, [], ap, arith, false, get_elem?, inl, inr, length,
  length-append, ltb, ltb_ℤ, lt→ltb, not, refl, some, subst, suc, sym, true, zero, ℕ, ℤ, ◌%◌, ◌&&◌,
  ◌++◌, ◌+◌, ◌<◌, ◌==◌, ◌^◌, ◌∙◌, ◌∷◌, ◌≡◌, ◌≤◌,
}

-- The index of a count than which none is lower.
abbrev pub LeastAt : List ℤ → ℕ → Type 0
LeastAt counts i = (c : ℤ) × ((get_elem? counts i ≡ some c) × All (λ d. ltb_ℤ d c ≡ false) counts)

ltb_ℤ_trans : (a b c : ℤ) → ltb_ℤ a b ≡ false → ltb_ℤ c b ≡ true → ltb_ℤ a c ≡ false
ltb_ℤ_trans a b c h k = ground arith

ltb_ℤ_irrefl : (a : ℤ) → ltb_ℤ a a ≡ false
ltb_ℤ_irrefl a = ground arith

lower-All :
    (b c : ℤ) (counts : List ℤ)
    → ltb_ℤ c b ≡ true
    → All (λ d. ltb_ℤ d b ≡ false) counts
    → All (λ d. ltb_ℤ d c ≡ false) counts
lower-All b c [] h k = tt
lower-All b c (d ∷ counts) h (k, ks) = (ltb_ℤ_trans d b c k h, lower-All b c counts h ks)

get_elem?-append :
    (seen : List ℤ) (c : ℤ) (rest : List ℤ) → get_elem? (seen ++ c ∷ rest) (length seen) ≡ some c
get_elem?-append [] c rest = refl
get_elem?-append (d ∷ seen) c rest = get_elem?-append seen c rest

-- What the loop for the lowest count has found, of all counts.
Found : List ℤ → ℕ × ℤ → Type 0
Found counts (i, best) = (get_elem? counts i ≡ some best) × All (λ d. ltb_ℤ d best ≡ false) counts

-- The loop one count further on.
further :
    (seen : List ℤ) (c : ℤ) (rest : List ℤ) (i : ℕ) (best : ℤ)
    → Found ((seen ++ c ∷ []) ++ rest) (least_from rest (length (seen ++ c ∷ [])) i best)
    → Found (seen ++ c ∷ rest) (least_from rest (length seen + 1) i best)
further seen c rest i best found =
    subst (λ l. Found l (least_from rest (length seen + 1) i best))
      (append_assoc seen (c ∷ []) rest)
      (subst (λ n. Found ((seen ++ c ∷ []) ++ rest) (least_from rest n i best))
        (length-append seen (c ∷ [])) found)

least_from-lower :
    (c : ℤ) (rest : List ℤ) (n i : ℕ) (best : ℤ)
    → ltb_ℤ c best ≡ true
    → least_from (c ∷ rest) n i best ≡ least_from rest (n + 1) n c
unfolding least_from
least_from-lower c rest n i best h = rw h refl

least_from-same :
    (c : ℤ) (rest : List ℤ) (n i : ℕ) (best : ℤ)
    → ltb_ℤ c best ≡ false
    → least_from (c ∷ rest) n i best ≡ least_from rest (n + 1) i best
unfolding least_from
least_from-same c rest n i best h = rw h refl

least_from-Found :
    (seen rest : List ℤ) (i : ℕ) (best : ℤ)
    → get_elem? (seen ++ rest) i ≡ some best
    → All (λ d. ltb_ℤ d best ≡ false) seen
    → Found (seen ++ rest) (least_from rest (length seen) i best)
least_from-Found seen [] i best at all =
    unfold least_from Found in (at, All-append (λ d. ltb_ℤ d best ≡ false) seen [] all tt)
least_from-Found seen (c ∷ rest) i best at all =
    let shift : (seen ++ c ∷ []) ++ rest ≡ seen ++ c ∷ rest = append_assoc seen (c ∷ []) rest in
    elim (Bool-cases (ltb_ℤ c best)) [
      | inl e ↦ rw (least_from-lower c rest (length seen) i best e) (
          further seen c rest (length seen) c (
            least_from-Found (seen ++ c ∷ []) rest (length seen) c
              (rw shift (get_elem?-append seen c rest))
              (All-append (λ d. ltb_ℤ d c ≡ false) seen (c ∷ []) (lower-All best c seen e all)
                (ltb_ℤ_irrefl c, tt))))
      | inr e ↦ rw (least_from-same c rest (length seen) i best e) (
          further seen c rest i best (
            least_from-Found (seen ++ c ∷ []) rest i best (rw shift at)
              (All-append (λ d. ltb_ℤ d best ≡ false) seen (c ∷ []) all (e, tt))))
    ]

equal-All :
    (b c : ℤ) (counts : List ℤ)
    → eqb_ℤ c b ≡ true
    → All (λ d. ltb_ℤ d b ≡ false) counts
    → All (λ d. ltb_ℤ d c ≡ false) counts
equal-All b c [] h k = tt
equal-All b c (d ∷ counts) h (k, ks) = (ground (arith, h, k), equal-All b c counts h ks)

module _ (counts : List ℤ) (best_idx : ℕ) (best : ℤ)
    (least : All (λ d. ltb_ℤ d best ≡ false) counts) where
  tied_here :
      (seen : List ℤ) (c : ℤ) (rest : List ℤ) (n : ℕ)
      → seen ++ c ∷ rest ≡ counts
      → length seen ≡ n
      → (not (n == best_idx) && eqb_ℤ c best) ≡ true
      → LeastAt counts n
  tied_here seen c rest n e size h = (
    c,
    (
      ap (get_elem? counts) (sym size)
          ∙ (ap (λ l. get_elem? l (length seen)) (sym e) ∙ get_elem?-append seen c rest),
      equal-All best c counts (ground (arith, h)) least,
    ),
  )

  -- The indices that share the lowest count.
  tied_from-All :
      (seen rest : List ℤ) (n : ℕ)
      → seen ++ rest ≡ counts
      → length seen ≡ n
      → All (LeastAt counts) (tied_from rest n best_idx best)
  unfolding tied_from
  tied_from-All seen [] n e size = tt
  tied_from-All seen (c ∷ rest) n e size =
      let others =
        tied_from-All (seen ++ c ∷ []) rest (n + 1) (append_assoc seen (c ∷ []) rest ∙ e)
          (omega (arith, length-append seen (c ∷ []), size)) in
      elim (Bool-cases (not (n == best_idx) && eqb_ℤ c best)) [
        | inl h ↦ rw h (tied_here seen c rest n e size h, others)
        | inr h ↦ rw h others
      ]

get_elem?-LeastAt :
    (counts : List ℤ) (tied : List ℕ) (i : ℕ)
    → All (LeastAt counts) tied
    → i < length tied
    → (j : ℕ) × ((get_elem? tied i ≡ some j) × LeastAt counts j)
get_elem?-LeastAt counts [] i h below = absurd (omega (arith, below))
get_elem?-LeastAt counts (j ∷ tied) zero (q, h) below = (j, (refl, q))
get_elem?-LeastAt counts (j ∷ tied) (suc i) (q, h) below =
    get_elem?-LeastAt counts tied i h (omega arith)

tie_break-LeastAt :
    (counts : List ℤ) (tied : List ℕ) (slot : ℕ)
    → All (LeastAt counts) tied
    → 1 ≤ length tied
    → slot < 2 ^ 63
    → (j : ℕ) × ((tie_break tied slot ≡ some j) × LeastAt counts j)
unfolding tie_break
tie_break-LeastAt counts tied slot h one below =
    rw (lt→ltb slot (2 ^ 63) below)
      (get_elem?-LeastAt counts tied (slot % length tied) h (omega (arith, one)))

break_ties-LeastAt :
    (counts : List ℤ) (found : ℕ × ℤ) (counter : ℕ)
    → Found counts found
    → counter + 1 < 2 ^ 63
    → (j : ℕ) × (((break_ties counts found counter).0 ≡ some j) × LeastAt counts j)
unfolding break_ties Found
break_ties-LeastAt counts (i, best) counter (at, least) few =
    let tied = i ∷ tied_from counts 0 i best in
    let slot = (counter + 1) % 2 ^ 64 in
    let all_least : All (LeastAt counts) tied =
      ((best, (at, least)), tied_from-All counts i best least [] counts 0 refl refl) in
    elim (Bool-cases (ltb 1 (length tied))) [
      | inl e ↦
          rw e (tie_break-LeastAt counts tied slot all_least (omega arith) (omega (arith, few)))
      | inr e ↦ rw e (i, (refl, (best, (at, least))))
    ]

-- NextTarget answers a target that has as few requests in flight as any, whichever of them the
-- tie-break turns to. Conditions: there is a target, and the balancer has broken fewer than
-- 2 ^ 63 - 1 ties.
pub next_target-LeastAt :
    (c : ℤ) (rest : List ℤ) (counter : ℕ) (few : counter + 1 < 2 ^ 63)
    → (j : ℕ) × (((next_target (c ∷ rest) counter).0 ≡ some j) × LeastAt (c ∷ rest) j)
unfolding next_target
next_target-LeastAt c rest counter few =
    break_ties-LeastAt (c ∷ rest) (least_from rest 1 0 c) counter
      (least_from-Found (c ∷ []) rest 0 c refl (ltb_ℤ_irrefl c, tt)) few
