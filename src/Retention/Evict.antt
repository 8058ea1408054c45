-- ===== src/Retention/Evict.antt =====
-- Eviction ends with both caps met, and never drops the entry that was just written.
use thinroute.Prelude.{All, [], arith, false, inr, is_some, refl, true, ◌||◌, ◌∷◌, ◌≡◌, ◌⊎◌}
use thinroute.Map.{lookup, Map}
use thinroute.Retention.{place, sorted, Snapshot}
use thinroute.Text.{text_eq, Text}
use thinroute.Text.Laws.{text_eq_refl, text_eq_iff}

module _ {A : Type 0} where
  -- What an entry of the store can be: the protected one, or one that is still to be visited.
  abbrev pub Pending : Text → Map (Snapshot A) → Text → Type 0
  Pending protect es k = (k ≡ protect) ⊎ (is_some (lookup k es) ≡ true)

  lookup-place :
      (k : Text) (e : Text × Snapshot A) (m : Map (Snapshot A))
      → is_some (lookup k (place e m)) ≡ (text_eq e.0 k || is_some (lookup k m))
  unfolding place lookup
  lookup-place k e [] = ground arith
  lookup-place k e ((j, c) ∷ m) = ground (arith, lookup-place k e m)

  lookup-sorted :
      (k : Text) (m : Map (Snapshot A)) → is_some (lookup k (sorted m)) ≡ is_some (lookup k m)
  unfolding sorted lookup
  lookup-sorted k [] = refl
  lookup-sorted k ((j, c) ∷ m) = ground (arith, lookup-place k (j, c) (sorted m), lookup-sorted k m)

  Pending-weaken :
      (protect : Text) (j : Text) (c : Snapshot A) (es m : Map (Snapshot A))
      → All (λ e. Pending protect es e.0) m
      → All (λ e. Pending protect ((j, c) ∷ es) e.0) m
  unfolding lookup
  Pending-weaken protect j c es [] h = tt
  Pending-weaken protect j c es ((k, d) ∷ m) (p, h) =
      (ground arith, Pending-weaken protect j c es m h)

  -- Each entry is in the map itself.
  pub Pending-self : (protect : Text) (m : Map (Snapshot A)) → All (λ e. Pending protect m e.0) m
  unfolding lookup
  Pending-self protect [] = tt
  Pending-self protect ((k, c) ∷ m) = (
    inr (ground (arith, text_eq_refl k)),
    Pending-weaken protect k c m m (Pending-self protect m),
  )

  pub Pending-sorted :
      (protect : Text) (es m : Map (Snapshot A))
      → All (λ e. Pending protect es e.0) m
      → All (λ e. Pending protect (sorted es) e.0) m
  Pending-sorted protect es [] h = tt
  Pending-sorted protect es ((k, c) ∷ m) (p, h) =
      (ground (arith, lookup-sorted k es), Pending-sorted protect es m h)

  -- The step of the loop that meets the protected entry.
  pub Pending-protect :
      (protect j : Text) (c : Snapshot A) (es m : Map (Snapshot A))
      → text_eq j protect ≡ true
      → All (λ e. Pending protect ((j, c) ∷ es) e.0) m
      → All (λ e. Pending protect es e.0) m
  unfolding lookup
  Pending-protect protect j c es [] q h = tt
  Pending-protect protect j c es ((k, d) ∷ m) q (p, h) =
      (ground (arith, text_eq_iff j protect, text_eq_iff j k), Pending-protect protect j c es m q h)

  -- The step of the loop that drops the entry `j`.
  pub Pending-remove :
      (protect j : Text) (c : Snapshot A) (es m : Map (Snapshot A))
      → All (λ e. Pending protect ((j, c) ∷ es) e.0 × (text_eq e.0 j ≡ false)) m
      → All (λ e. Pending protect es e.0) m
  unfolding lookup
  Pending-remove protect j c es [] h = tt
  Pending-remove protect j c es ((k, d) ∷ m) ((p, q), h) =
      (ground (arith, text_eq_iff j k, text_eq_iff k j), Pending-remove protect j c es m h)
