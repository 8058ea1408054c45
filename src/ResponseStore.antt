-- ===== src/ResponseStore.antt =====
-- internal/responsestore/store_memory.go: the methods of the in-memory response store. The deep
-- copy through JSON (github.com/goccy/go-json), with the size of the encoding, is the parameter
-- `clone`; `none` is its error. A response that is nil, or whose Response is nil, is `none`.
pub mod Bounded
pub mod Behaviour
mod Tests
use thinroute.Map.{lookup}
use thinroute.Retention.{
  Snapshot, MemoryStore, enforce_bounds_locked, expired, over_byte_budget, cleanup_expired_locked,
  put_locked, remove_locked, prepare,
}
use thinroute.Prelude.{Option, if◌then◌else◌, is_some, none, not, some, ℕ}
use thinroute.Clock.{Time, is_zero}
use thinroute.Text.{Text, is_empty}

pub data StoreError : Type 0 where
  id_required clone_failed over_budget already_exists not_found : StoreError

-- What a method answers besides the store.
pub data Reply (A : Type 0) : Type 0 where
  done : Reply A
  found : Snapshot A → Reply A
  refused : StoreError → Reply A

module _ {A : Type 0} (clone : Snapshot A → Option (Snapshot A × ℕ)) where
  abbrev pub Answered : Type 0
  Answered = MemoryStore A × Reply A

  -- The end of Create and of Update.
  abbrev store_and_enforce : Snapshot A → ℕ → MemoryStore A → Answered
  store_and_enforce c size s = (enforce_bounds_locked c.id (put_locked c.id c size s), done)

  -- Create, from the look-up of the id on.
  create_at : Option (Snapshot A) → Snapshot A → ℕ → Time → MemoryStore A → Answered
  create_at none c size now s = store_and_enforce c size s
  create_at (some existing) c size now s =
      if not (expired existing now)
      then (s, refused already_exists)
      else store_and_enforce c size (remove_locked c.id s)

  create_cloned : Option (Snapshot A × ℕ) → Time → MemoryStore A → Answered
  unfolding create_at
  create_cloned none now s = (s, refused clone_failed)
  create_cloned (some (c, size)) now s =
      if over_byte_budget s size
      then (s, refused over_budget)
      else (let c' = prepare c now s.ttl in
          let s' = cleanup_expired_locked now s in
          if expired c' now then (s', done) else create_at (lookup c'.id s'.items) c' size now s')

  unfoldable pub create : Option (Snapshot A) → Time → MemoryStore A → Answered
  unfolding create_cloned
  create none now s = (s, refused id_required)
  create (some r) now s =
      if is_empty r.id then (s, refused id_required) else create_cloned (clone r) now s

  -- The clone that Get returns.
  abbrev pub cloned_reply : Option (Snapshot A × ℕ) → Reply A
  cloned_reply none = refused clone_failed
  cloned_reply (some (c, _)) = found c

  get_at : Option (Snapshot A) → Text → Time → MemoryStore A → Answered
  get_at none id now s = (s, refused not_found)
  get_at (some r) id now s =
      if expired r now then (remove_locked id s, refused not_found) else (s, cloned_reply (clone r))

  unfoldable pub get : Text → Time → MemoryStore A → Answered
  unfolding get_at
  get id now s = let s' = cleanup_expired_locked now s in get_at (lookup id s'.items) id now s'

  -- The times that Update takes over from the entry that it replaces.
  abbrev pub inherit : Snapshot A → Snapshot A → Snapshot A
  inherit existing c = record c {
    stored_at = if is_zero c.stored_at then existing.stored_at else c.stored_at;
    expires_at = if is_zero c.expires_at then existing.expires_at else c.expires_at;
  }

  update_at : Option (Snapshot A) → Snapshot A → ℕ → Time → MemoryStore A → Answered
  update_at none c size now s = (s, refused not_found)
  update_at (some existing) c size now s =
      if expired existing now
      then (remove_locked c.id s, refused not_found)
      else (let c' = prepare (inherit existing c) now s.ttl in
          if expired c' now
          then (remove_locked c.id s, refused not_found)
          else store_and_enforce c' size s)

  update_cloned : Option (Snapshot A × ℕ) → Time → MemoryStore A → Answered
  unfolding update_at
  update_cloned none now s = (s, refused clone_failed)
  update_cloned (some (c, size)) now s =
      if over_byte_budget s size
      then (s, refused over_budget)
      else (let s' = cleanup_expired_locked now s in update_at (lookup c.id s'.items) c size now s')

  unfoldable pub update : Option (Snapshot A) → Time → MemoryStore A → Answered
  unfolding update_cloned
  update none now s = (s, refused id_required)
  update (some r) now s =
      if is_empty r.id then (s, refused id_required) else update_cloned (clone r) now s

  -- Delete does not test whether the entry has expired.
  unfoldable pub delete : Text → Time → MemoryStore A → Answered
  delete id now s =
      let s' = cleanup_expired_locked now s in
      if is_some (lookup id s'.items) then (remove_locked id s', done) else (s', refused not_found)
