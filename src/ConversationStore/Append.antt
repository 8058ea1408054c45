-- ===== src/ConversationStore/Append.antt =====
-- AppendItems keeps the store within its caps, and what it appends is there.
use thinroute.Prelude.{
  Option, [], ap, arith, false, ltb, none, some, ℕ, ◌&&◌, ◌++◌, ◌+◌, ◌∷◌, ◌≡◌, ◌≤◌, ◌⊎◌,
}
use thinroute.Clock.{Time}
use thinroute.ConversationStore.{append_at, Items, grown, added_bytes, append_items}
use thinroute.Errors.{Bytes}
use thinroute.Map.{or_zero, lookup, insert, sum}
use thinroute.ResponseStore.{done}
use thinroute.Retention.{Snapshot, MemoryStore, cleanup_expired_locked}
use thinroute.Text.{Text}
use thinroute.Map.Laws.{remove-SameKeys, insert-Unique, sum-remove, lookup-insert_self}
use thinroute.Retention.Accounts.{Balanced, enforce_bounds_locked-Balanced}
use thinroute.Retention.Bounds.{
  Fits, enforce_bounds_locked-lookup_protect, enforce_bounds_locked-within,
}
use thinroute.Retention.Shrink.{
  IsBounded, remove_locked-IsBounded, cleanup_expired_locked-IsBounded,
}

append_fits :
    (m size added : ℕ) → (ltb 0 m && ltb m (size + added)) ≡ false → (size + added ≤ m) ⊎ (m ≡ 0)
append_fits m size added h = ground arith

grown-Balanced :
    (id : Text) (c : Snapshot Items) (items : Items) (s : MemoryStore Items)
    → Balanced s
    → Balanced (grown id c items s)
unfolding insert sum
grown-Balanced id c items s b = record {
  same = ap (λ r. id ∷ r) (remove-SameKeys id s.items s.sizes b.same);
  unique_items =
      insert-Unique id (record c { payload = c.payload ++ items }) s.items b.unique_items;
  unique_sizes =
      insert-Unique id (or_zero (lookup id s.sizes) + added_bytes items) s.sizes b.unique_sizes;
  total = omega (arith, b.total, sum-remove id s.sizes b.unique_sizes);
}

grown-Fits :
    (id : Text) (c : Snapshot Items) (items : Items) (s : MemoryStore Items)
    → (ltb 0 s.max_bytes && ltb s.max_bytes (or_zero (lookup id s.sizes) + added_bytes items))
      ≡ false
    → Fits id (grown id c items s)
grown-Fits id c items s h =
    rw (lookup-insert_self id (or_zero (lookup id s.sizes) + added_bytes items) s.sizes)
      (append_fits s.max_bytes (or_zero (lookup id s.sizes)) (added_bytes items) h)

append_at-IsBounded :
    (o : Option (Snapshot Items)) (id : Text) (items : Items) (now : Time) (s : MemoryStore Items)
    → IsBounded s
    → IsBounded (append_at o id items now s).0
unfolding append_at
append_at-IsBounded none id items now s b = b
append_at-IsBounded (some c) id items now s b =
    let g = grown id c items s in
    let b' = grown-Balanced id c items s b.balanced in
    ground (
      arith,
      remove_locked-IsBounded id s b,
      grown-Fits id c items s,
      enforce_bounds_locked-Balanced id g b',
      enforce_bounds_locked-within id g b',
    )

-- AppendItems keeps the accounts balanced and the caps met, on every path.
pub append_items-IsBounded :
    (id : Text) (items : Items) (now : Time) (s : MemoryStore Items)
    → IsBounded s
    → IsBounded (append_items id items now s).0
unfolding append_items
append_items-IsBounded id [] now s b = b
append_items-IsBounded id (i ∷ items) now s b =
    let s' = cleanup_expired_locked now s in
    append_at-IsBounded (lookup id s'.items) id (i ∷ items) now s'
      (cleanup_expired_locked-IsBounded now s b)

-- What appending to an entry that is there does, as the entry's look-up afterwards shows.
append_at-done :
    (c : Snapshot Items) (id : Text) (items : Items) (now : Time) (s : MemoryStore Items)
    → (append_at (some c) id items now s).1 ≡ done
    → lookup id (append_at (some c) id items now s).0.items
      ≡ some (record c { payload = c.payload ++ items })
unfolding append_at
append_at-done c id items now s e =
    let g = grown id c items s in
    ground (
      arith,
      enforce_bounds_locked-lookup_protect id g,
      lookup-insert_self id (record c { payload = c.payload ++ items }) s.items,
    )

append_at-some :
    (o : Option (Snapshot Items)) (c : Snapshot Items) (id : Text) (items : Items) (now : Time)
    (s : MemoryStore Items)
    → o ≡ some c
    → (append_at o id items now s).1 ≡ done
    → lookup id (append_at o id items now s).0.items
      ≡ some (record c { payload = c.payload ++ items })
append_at-some none c id items now s e d = cc
append_at-some (some c') c id items now s e d =
    let same : c' ≡ c = cc in rw (← same) (append_at-done c' id items now s d)

-- When AppendItems succeeds with some items, the entry that the sweep of expired entries left at
-- the id holds the old items followed by the new ones, and is otherwise unchanged.
pub append_items-appends :
    (c : Snapshot Items) (id : Text) (i : Bytes) (items : Items) (now : Time)
    (s : MemoryStore Items)
    → lookup id (cleanup_expired_locked now s).items ≡ some c
    → (append_items id (i ∷ items) now s).1 ≡ done
    → lookup id (append_items id (i ∷ items) now s).0.items
      ≡ some (record c { payload = c.payload ++ i ∷ items })
unfolding append_items
append_items-appends c id i items now s e d =
    let s' = cleanup_expired_locked now s in
    append_at-some (lookup id s'.items) c id (i ∷ items) now s' e d
