-- ===== src/ConversationStore.antt =====
-- internal/conversationstore/store_memory.go: the in-memory conversation store. Its Create, Get and
-- Update are those of the response store, line for line, and are modelled by the same definitions
-- (ResponseStore.antt); here stand AppendItems and Delete, which differ. A conversation's payload
-- is the list of its items, each the bytes of its JSON text; another part of the conversation plays
-- no role in these methods.
pub mod Append
mod Tests
use thinroute.ResponseStore.{Reply, refused, done, not_found, over_budget}
use thinroute.Map.{insert, or_zero, lookup}
use thinroute.Clock.{Time}
use thinroute.Retention.{
  Snapshot, MemoryStore, cleanup_expired_locked, expired, remove_locked, enforce_bounds_locked,
}
use thinroute.Text.{Text}
use thinroute.Errors.{Bytes}
use thinroute.Prelude.{
  List, Option, [], if◌then◌else◌, length, ltb, none, some, ℕ, ◌&&◌, ◌++◌, ◌+◌, ◌∷◌,
}

abbrev pub Items : Type 0
Items = List Bytes

-- The bytes that the items add.
unfoldable pub added_bytes : Items → ℕ
added_bytes [] = 0
added_bytes (item ∷ items) = length item + added_bytes items

-- The entry with the items appended, and the sizes counted up. The source changes the stored
-- conversation in place, under the mutex; a Get that has unlocked and is still cloning the same
-- conversation may see a part of that change, which is not modelled.
abbrev pub grown : Text → Snapshot Items → Items → MemoryStore Items → MemoryStore Items
grown id c items s = record s {
  items = insert id (record c { payload = c.payload ++ items }) s.items;
  sizes = insert id (or_zero (lookup id s.sizes) + added_bytes items) s.sizes;
  total_bytes = s.total_bytes + added_bytes items;
}

append_at :
    Option (Snapshot Items)
    → Text
    → Items
    → Time
    → MemoryStore Items
    → MemoryStore Items × Reply Items
append_at none id items now s = (s, refused not_found)
append_at (some c) id items now s =
    if expired c now
    then (remove_locked id s, refused not_found)
    else if ltb 0 s.max_bytes && ltb s.max_bytes (or_zero (lookup id s.sizes) + added_bytes items)
    then (s, refused over_budget)
    else (enforce_bounds_locked id (grown id c items s), done)

-- AppendItems
unfoldable pub append_items :
    Text → Items → Time → MemoryStore Items → MemoryStore Items × Reply Items
unfolding append_at
append_items id [] now s = (s, done)
append_items id (i ∷ items) now s =
    let s' = cleanup_expired_locked now s in append_at (lookup id s'.items) id (i ∷ items) now s'

delete_at :
    Option (Snapshot Items) → Text → Time → MemoryStore Items → MemoryStore Items × Reply Items
delete_at none id now s = (s, refused not_found)
delete_at (some c) id now s =
    if expired c now then (remove_locked id s, refused not_found) else (remove_locked id s, done)

-- Delete
unfoldable pub delete : Text → Time → MemoryStore Items → MemoryStore Items × Reply Items
unfolding delete_at
delete id now s = let s' = cleanup_expired_locked now s in delete_at (lookup id s'.items) id now s'
