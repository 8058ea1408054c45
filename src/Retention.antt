-- ===== src/Retention.antt =====
-- The retention of the in-memory stores, which internal/responsestore/store_memory.go and
-- internal/conversationstore/store_memory.go share line for line (the map entries point into the
-- first): the item and size maps, the byte total, the sweep of expired entries and the eviction of
-- the oldest. `A` is what a snapshot holds besides its id and its times. A bound that the source
-- switches off by a value that is not positive is `0`. A method is one step: the
-- changes of the store are made under its mutex, but Get unlocks before it clones what it has found,
-- so that its answer is modelled for calls that do not overlap with a change of the same entry. Sizes are those of values in memory; Retention/Bounds shows that their sum stays under
-- the byte budget between two calls, and so far from the end of int64.
pub mod Accounts
pub mod Evict
pub mod Bounds
pub mod Shrink
pub mod Keeps
use thinroute.Prelude.{
  Bool, [], if◌then◌else◌, is_some, leb, length, ltb, not, ℕ, ◌&&◌, ◌*◌, ◌+◌, ◌-◌, ◌==◌, ◌||◌, ◌∷◌,
}
use thinroute.Clock.{Time, Duration, sub_time, is_zero, after, before}
use thinroute.Text.{Text, text_eq, text_lt}
use thinroute.Map.{Map, lookup, remove, insert, or_zero}

pub record Snapshot (A : Type 0) : Type 0 where
  pub id : Text
  pub payload : A
  pub stored_at : Time
  pub expires_at : Time

pub record MemoryStore (A : Type 0) : Type 0 where
  pub items : Map (Snapshot A)
  pub sizes : Map ℕ
  pub total_bytes : ℕ
  pub ttl : Duration
  pub max_entries : ℕ
  pub max_bytes : ℕ
  pub last_cleanup : Time
  pub cleanup_interval : Duration

module _ {A : Type 0} where
  unfoldable pub new_memory_store : (ttl : Duration) (max_entries max_bytes : ℕ) → MemoryStore A
  new_memory_store ttl max_entries max_bytes = record {
    items = [];
    sizes = [];
    total_bytes = 0;
    ttl = ttl;
    max_entries = max_entries;
    max_bytes = max_bytes;
    last_cleanup = 0;
    cleanup_interval = 60 * 1_000_000_000;
  }

  unfoldable pub expired : Snapshot A → Time → Bool
  expired s now = not (is_zero s.expires_at) && not (after s.expires_at now)

  -- checkByteBudget; `true` for an error
  unfoldable pub over_byte_budget : MemoryStore A → ℕ → Bool
  over_byte_budget s size = ltb 0 s.max_bytes && ltb s.max_bytes size

  abbrev dropped : Text → MemoryStore A → MemoryStore A
  dropped id s = record s {
    items = remove id s.items;
    total_bytes = s.total_bytes - or_zero (lookup id s.sizes);
    sizes = remove id s.sizes;
  }

  -- removeLocked
  unfoldable pub remove_locked : Text → MemoryStore A → MemoryStore A
  remove_locked id s = if is_some (lookup id s.items) then dropped id s else s

  -- putLocked
  unfoldable pub put_locked : Text → Snapshot A → ℕ → MemoryStore A → MemoryStore A
  put_locked id snapshot size s =
      let s' = remove_locked id s in
      record s' {
        items = insert id snapshot s'.items;
        sizes = insert id size s'.sizes;
        total_bytes = s'.total_bytes + size;
      }

  -- prepareStoredResponseForMemory
  unfoldable pub prepare : Snapshot A → Time → Duration → Snapshot A
  prepare c now ttl =
      let c' = if is_zero c.stored_at then record c { stored_at = now } else c in
      if ltb 0 ttl && is_zero c'.expires_at
      then record c' { expires_at = c'.stored_at + ttl }
      else c'

  -- The loop of cleanupExpiredLocked over the entries.
  sweep : Map (Snapshot A) → Time → MemoryStore A → MemoryStore A
  sweep [] now s = s
  sweep ((id, snapshot) ∷ rest) now s =
      sweep rest now (if expired snapshot now then remove_locked id s else s)

  -- cleanupExpiredLocked
  unfoldable pub cleanup_expired_locked : Time → MemoryStore A → MemoryStore A
  unfolding sweep
  cleanup_expired_locked now s =
      let swept = sweep s.items now (record s { last_cleanup = now }) in
      if s.ttl == 0
      then s
      else if ltb 0 s.cleanup_interval
          && not (is_zero s.last_cleanup)
          && ltb (sub_time now s.last_cleanup) s.cleanup_interval
      then s
      else swept

  -- The order of the sort: by the time of storing, then by id.
  older : Text × Snapshot A → Text × Snapshot A → Bool
  older (i, a) (j, b) =
      if a.stored_at == b.stored_at then text_lt i j else before a.stored_at b.stored_at

  -- sort.Slice by this order. No two entries are equal in it, so every sort gives this list.
  place : Text × Snapshot A → Map (Snapshot A) → Map (Snapshot A)
  place e [] = e ∷ []
  place e (f ∷ m) = if older e f then e ∷ f ∷ m else f ∷ place e m

  unfoldable pub sorted : Map (Snapshot A) → Map (Snapshot A)
  unfolding place older
  sorted [] = []
  sorted (e ∷ m) = place e (sorted m)

  -- Both caps hold.
  abbrev pub within : MemoryStore A → Bool
  within s =
      (s.max_entries == 0 || leb (length s.items) s.max_entries)
      && (s.max_bytes == 0 || leb s.total_bytes s.max_bytes)

  -- The loop of enforceBoundsLocked over the sorted entries.
  unfoldable pub evict : Text → Map (Snapshot A) → MemoryStore A → MemoryStore A
  evict protect [] s = s
  evict protect ((id, _) ∷ rest) s =
      let on = evict protect rest (if text_eq id protect then s else remove_locked id s) in
      if within s then s else on

  -- enforceBoundsLocked
  unfoldable pub enforce_bounds_locked : Text → MemoryStore A → MemoryStore A
  unfolding sorted evict
  enforce_bounds_locked protect s =
      let over_entries = ltb 0 s.max_entries && ltb s.max_entries (length s.items) in
      let over_bytes = ltb 0 s.max_bytes && ltb s.max_bytes s.total_bytes in
      let evicted = evict protect (sorted s.items) s in
      if not over_entries && not over_bytes then s else evicted
