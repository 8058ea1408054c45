-- ===== src/ResponseStore/Bounded.antt =====
-- Every method keeps the store within its caps, on every path.
use thinroute.Prelude.{
  Bool-cases, Option, arith, false, inl, inr, none, some, ℕ, ◌≡◌, List, [], ◌∷◌,
}
use thinroute.Clock.{Time, Duration}
use thinroute.Map.{lookup}
use thinroute.ResponseStore.{
  create_at, create_cloned, create, get_at, get, update_at, update_cloned, update, delete, inherit,
}
use thinroute.Retention.{
  MemoryStore, over_byte_budget, cleanup_expired_locked, prepare, expired, remove_locked, Snapshot,
  new_memory_store,
}
use thinroute.Text.{Text}
use thinroute.Retention.Accounts.{remove_locked-Balanced, new-Balanced}
use thinroute.Retention.Bounds.{remove_locked-Settings}
use thinroute.Retention.Shrink.{
  IsBounded, remove_locked-IsBounded, write-IsBounded, cleanup_expired_locked-IsBounded,
  over_byte_budget-Settings, cleanup_expired_locked-Settings,
}

-- A call of a method, at a time.
pub data Call (A : Type 0) : Type 0 where
  creates updates : Option (Snapshot A) → Time → Call A
  gets deletes : Text → Time → Call A

module _ {A : Type 0} (clone : Snapshot A → Option (Snapshot A × ℕ)) where
  create_at-IsBounded :
      (o : Option (Snapshot A)) (c : Snapshot A) (size : ℕ) (now : Time) (s : MemoryStore A)
      → IsBounded s
      → over_byte_budget s size ≡ false
      → IsBounded (create_at clone o c size now s).0
  unfolding create_at
  create_at-IsBounded none c size now s b h = write-IsBounded c.id c size s b.balanced h
  create_at-IsBounded (some e) c size now s b h = elim (Bool-cases (expired e now)) [
    | inl x ↦ rw x (
        write-IsBounded c.id c size (remove_locked c.id s)
          (remove_locked-Balanced c.id s b.balanced)
          (over_byte_budget-Settings s (remove_locked c.id s) size (remove_locked-Settings c.id s)
            h))
    | inr x ↦ rw x b
  ]

  create_cloned-IsBounded :
      (o : Option (Snapshot A × ℕ)) (now : Time) (s : MemoryStore A)
      → IsBounded s
      → IsBounded (create_cloned clone o now s).0
  unfolding create_cloned
  create_cloned-IsBounded none now s b = b
  create_cloned-IsBounded (some (c, size)) now s b = elim (Bool-cases (over_byte_budget s size)) [
    | inl x ↦ rw x b
    | inr x ↦
        let s' = cleanup_expired_locked now s in
        let c' = prepare c now s.ttl in
        let b' = cleanup_expired_locked-IsBounded now s b in
        let x' = over_byte_budget-Settings s s' size (cleanup_expired_locked-Settings now s) x in
        rw x (elim (Bool-cases (expired c' now)) [
          | inl e ↦ rw e b'
          | inr e ↦ rw e (create_at-IsBounded (lookup c'.id s'.items) c' size now s' b' x')
        ])
  ]

  pub create-IsBounded :
      (r : Option (Snapshot A)) (now : Time) (s : MemoryStore A)
      → IsBounded s
      → IsBounded (create clone r now s).0
  unfolding create
  create-IsBounded none now s b = b
  create-IsBounded (some r) now s b = ground (arith, create_cloned-IsBounded (clone r) now s b)

  get_at-IsBounded :
      (o : Option (Snapshot A)) (id : Text) (now : Time) (s : MemoryStore A)
      → IsBounded s
      → IsBounded (get_at clone o id now s).0
  unfolding get_at
  get_at-IsBounded none id now s b = b
  get_at-IsBounded (some e) id now s b = ground (arith, remove_locked-IsBounded id s b)

  get-IsBounded :
      (id : Text) (now : Time) (s : MemoryStore A) → IsBounded s → IsBounded (get clone id now s).0
  unfolding get
  get-IsBounded id now s b =
      let s' = cleanup_expired_locked now s in
      get_at-IsBounded (lookup id s'.items) id now s' (cleanup_expired_locked-IsBounded now s b)

  update_at-IsBounded :
      (o : Option (Snapshot A)) (c : Snapshot A) (size : ℕ) (now : Time) (s : MemoryStore A)
      → IsBounded s
      → over_byte_budget s size ≡ false
      → IsBounded (update_at clone o c size now s).0
  unfolding update_at
  update_at-IsBounded none c size now s b h = b
  update_at-IsBounded (some e) c size now s b h =
      let c' = prepare (inherit clone e c) now s.ttl in
      ground (arith, remove_locked-IsBounded c.id s b, write-IsBounded c'.id c' size s b.balanced h)

  update_cloned-IsBounded :
      (o : Option (Snapshot A × ℕ)) (now : Time) (s : MemoryStore A)
      → IsBounded s
      → IsBounded (update_cloned clone o now s).0
  unfolding update_cloned
  update_cloned-IsBounded none now s b = b
  update_cloned-IsBounded (some (c, size)) now s b =
      let s' = cleanup_expired_locked now s in
      ground (
        arith,
        update_at-IsBounded (lookup c.id s'.items) c size now s'
            (cleanup_expired_locked-IsBounded now s b),
        over_byte_budget-Settings s s' size (cleanup_expired_locked-Settings now s),
      )

  update-IsBounded :
      (r : Option (Snapshot A)) (now : Time) (s : MemoryStore A)
      → IsBounded s
      → IsBounded (update clone r now s).0
  unfolding update
  update-IsBounded none now s b = b
  update-IsBounded (some r) now s b = ground (arith, update_cloned-IsBounded (clone r) now s b)

  delete-IsBounded :
      (id : Text) (now : Time) (s : MemoryStore A)
      → IsBounded s
      → IsBounded (delete clone id now s).0
  unfolding delete
  delete-IsBounded id now s b =
      let s' = cleanup_expired_locked now s in
      let b' = cleanup_expired_locked-IsBounded now s b in
      ground (arith, remove_locked-IsBounded id s' b')

  -- The store after the calls, one after the other.
  unfoldable pub run : List (Call A) → MemoryStore A → MemoryStore A
  run [] s = s
  run (creates r now ∷ rest) s = run rest (create clone r now s).0
  run (updates r now ∷ rest) s = run rest (update clone r now s).0
  run (gets id now ∷ rest) s = run rest (get clone id now s).0
  run (deletes id now ∷ rest) s = run rest (delete clone id now s).0

  run_from-IsBounded :
      (calls : List (Call A)) (s : MemoryStore A) → IsBounded s → IsBounded (run calls s)
  unfolding run
  run_from-IsBounded [] s b = b
  run_from-IsBounded (creates r now ∷ rest) s b =
      run_from-IsBounded rest (create clone r now s).0 (create-IsBounded r now s b)
  run_from-IsBounded (updates r now ∷ rest) s b =
      run_from-IsBounded rest (update clone r now s).0 (update-IsBounded r now s b)
  run_from-IsBounded (gets id now ∷ rest) s b =
      run_from-IsBounded rest (get clone id now s).0 (get-IsBounded id now s b)
  run_from-IsBounded (deletes id now ∷ rest) s b =
      run_from-IsBounded rest (delete clone id now s).0 (delete-IsBounded id now s b)

  new-IsBounded : (ttl : Duration) (n m : ℕ) → IsBounded (new_memory_store {A = A} ttl n m)
  unfolding new_memory_store
  new-IsBounded ttl n m = record { balanced = new-Balanced ttl n m; capped = ground arith }

  -- After any calls on a new store, whatever their arguments, their times and the copying of the
  -- snapshots: the accounts balance (a size for each item, one entry for an id, and the byte total
  -- is the sum of the sizes), and each cap that is set holds.
  pub run-IsBounded :
      (calls : List (Call A)) (ttl : Duration) (n m : ℕ)
      → IsBounded (run calls (new_memory_store ttl n m))
  run-IsBounded calls ttl n m =
      run_from-IsBounded calls (new_memory_store ttl n m) (new-IsBounded ttl n m)
