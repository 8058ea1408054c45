-- ===== src/Retention/Accounts.antt =====
-- The size map has an entry for each item, and the byte total is the sum of the sizes.
use thinroute.Prelude.{
  Bool-cases, Option-cases, [], ap, arith, inl, inr, is_some, none, refl, sym, ℕ, ◌∷◌, ◌≡◌,
}
use thinroute.Clock.{Duration, Time}
use thinroute.Map.{sum, lookup, remove, Map, insert}
use thinroute.Retention.{
  MemoryStore, new_memory_store, remove_locked, put_locked, dropped, Snapshot, sweep,
  cleanup_expired_locked, evict, enforce_bounds_locked, expired, within, sorted,
}
use thinroute.Text.{Text, text_eq}
use thinroute.Map.Laws.{
  Unique, SameKeys, remove-SameKeys, remove-Unique, insert-Unique, sum-remove, lookup-SameKeys,
  remove_absent, lookup-remove_self,
}

module _ {A : Type 0} where
  pub record Balanced (s : MemoryStore A) : Type 0 where
    pub same : SameKeys s.items s.sizes
    pub unique_items : Unique s.items
    pub unique_sizes : Unique s.sizes
    pub total : s.total_bytes ≡ sum s.sizes

  pub new-Balanced : (ttl : Duration) (n m : ℕ) → Balanced (new_memory_store ttl n m)
  unfolding new_memory_store sum
  new-Balanced ttl n m = record { same = refl; unique_items = tt; unique_sizes = tt; total = refl }

  dropped-Balanced : (id : Text) (s : MemoryStore A) → Balanced s → Balanced (dropped id s)
  dropped-Balanced id s b = record {
    same = remove-SameKeys id s.items s.sizes b.same;
    unique_items = remove-Unique id s.items b.unique_items;
    unique_sizes = remove-Unique id s.sizes b.unique_sizes;
    total = omega (arith, b.total, sum-remove id s.sizes b.unique_sizes);
  }

  pub remove_locked-Balanced :
      (id : Text) (s : MemoryStore A) → Balanced s → Balanced (remove_locked id s)
  unfolding remove_locked
  remove_locked-Balanced id s b = elim (Bool-cases (is_some (lookup id s.items))) [
    | inl e ↦ rw e (dropped-Balanced id s b)
    | inr e ↦ rw e b
  ]

  -- What is left of the items and the sizes is the same whether or not the id was there.
  pub remove_locked-items :
      (id : Text) (s : MemoryStore A) → (remove_locked id s).items ≡ remove id s.items
  unfolding remove_locked
  remove_locked-items id s = elim (Option-cases (lookup id s.items)) [
    | inl e ↦ rw e (sym (remove_absent id s.items e))
    | inr (a, e) ↦ rw e refl
  ]

  pub remove_locked-sizes :
      (id : Text) (s : MemoryStore A) → Balanced s → (remove_locked id s).sizes ≡ remove id s.sizes
  unfolding remove_locked
  remove_locked-sizes id s b = elim (Option-cases (lookup id s.items)) [
    | inl e ↦ rw e (sym (remove_absent id s.sizes (lookup-SameKeys id s.items s.sizes b.same e)))
    | inr (a, e) ↦ rw e refl
  ]

  pub put_locked-Balanced :
      (id : Text) (c : Snapshot A) (size : ℕ) (s : MemoryStore A)
      → Balanced s
      → Balanced (put_locked id c size s)
  unfolding put_locked insert sum
  put_locked-Balanced id c size s b =
      let s' = remove_locked id s in
      let b' = remove_locked-Balanced id s b in
      let gone : lookup id s'.sizes ≡ none =
        rw (remove_locked-sizes id s b) (lookup-remove_self id s.sizes) in
      record {
        same = ap (λ r. id ∷ r) (remove-SameKeys id s'.items s'.sizes b'.same);
        unique_items = insert-Unique id c s'.items b'.unique_items;
        unique_sizes = insert-Unique id size s'.sizes b'.unique_sizes;
        total = rw (remove_absent id s'.sizes gone) (omega (arith, b'.total));
      }

  sweep-Balanced :
      (m : Map (Snapshot A)) (now : Time) (s : MemoryStore A)
      → Balanced s
      → Balanced (sweep m now s)
  unfolding sweep
  sweep-Balanced [] now s b = b
  sweep-Balanced ((id, c) ∷ rest) now s b = elim (Bool-cases (expired c now)) [
    | inl e ↦ rw e (sweep-Balanced rest now (remove_locked id s) (remove_locked-Balanced id s b))
    | inr e ↦ rw e (sweep-Balanced rest now s b)
  ]

  pub touched-Balanced :
      (now : Time) (s : MemoryStore A) → Balanced s → Balanced (record s { last_cleanup = now })
  touched-Balanced now s b = record {
    same = b.same;
    unique_items = b.unique_items;
    unique_sizes = b.unique_sizes;
    total = b.total;
  }

  pub cleanup_expired_locked-Balanced :
      (now : Time) (s : MemoryStore A) → Balanced s → Balanced (cleanup_expired_locked now s)
  unfolding cleanup_expired_locked
  cleanup_expired_locked-Balanced now s b = ground (
    arith,
    sweep-Balanced s.items now (record s { last_cleanup = now }) (touched-Balanced now s b),
  )

  pub evict-Balanced :
      (protect : Text) (m : Map (Snapshot A)) (s : MemoryStore A)
      → Balanced s
      → Balanced (evict protect m s)
  unfolding evict
  evict-Balanced protect [] s b = b
  evict-Balanced protect ((id, c) ∷ rest) s b = elim (Bool-cases (within s)) [
    | inl e ↦ rw e b
    | inr e ↦ rw e (elim (Bool-cases (text_eq id protect)) [
      | inl p ↦ rw p (evict-Balanced protect rest s b)
      | inr p ↦
          rw p (evict-Balanced protect rest (remove_locked id s) (remove_locked-Balanced id s b))
    ])
  ]

  pub enforce_bounds_locked-Balanced :
      (protect : Text) (s : MemoryStore A) → Balanced s → Balanced (enforce_bounds_locked protect s)
  unfolding enforce_bounds_locked
  enforce_bounds_locked-Balanced protect s b =
      ground (arith, evict-Balanced protect (sorted s.items) s b)
