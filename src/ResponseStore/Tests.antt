-- ===== src/ResponseStore/Tests.antt =====
-- Runs of the response store, and its theorems at concrete inputs.
use thinroute.Prelude.{List, Option, [], refl, some, ℕ, ◌∷◌, ◌≡◌}
use thinroute.Map.{sum, keys, lookup, remove, insert}
use thinroute.ResponseStore.{
  create, get, update, found, refused, delete, not_found, over_budget, done, already_exists,
}
use thinroute.Retention.{
  Snapshot, MemoryStore, new_memory_store, prepare, expired, cleanup_expired_locked,
  enforce_bounds_locked, put_locked, remove_locked, over_byte_budget,
}
use thinroute.Text.{text_eq}
use thinroute.ResponseStore.Behaviour.{get-create, delete-expired}
use thinroute.ResponseStore.Bounded.{Call, creates, run, run-IsBounded}
use thinroute.Retention.Shrink.{IsBounded}

program : Unit {0}
unfolding create get update delete new_memory_store run prepare expired cleanup_expired_locked
    enforce_bounds_locked put_locked remove_locked over_byte_budget lookup remove insert text_eq
program = tt

abbrev clone : Snapshot ℕ → Option (Snapshot ℕ × ℕ)
clone r = some (r, r.payload)

abbrev snap : ℕ → ℕ → Snapshot ℕ
snap id size = record { id = id ∷ []; payload = size; stored_at = 0; expires_at = 0 }

-- Room for two entries and 100 bytes, and a time to live of 50.
abbrev calls : List (Call ℕ)
calls =
    creates (some (snap 1 60)) 10
    ∷ creates (some (snap 2 30)) 20
    ∷ creates (some (snap 3 40)) 30
    ∷ []

abbrev first : Snapshot ℕ
first = record { id = 1 ∷ []; payload = 60; stored_at = 10; expires_at = 60 }

store_tests :
    let s = run clone calls (new_memory_store 50 2 100) in
    (keys s.items ≡ (3 ∷ []) ∷ (2 ∷ []) ∷ [])
    × (s.total_bytes ≡ 70)
    × ((get clone (1 ∷ []) 31 s).1 ≡ refused not_found)
    × ((create clone (some (snap 4 101)) 31 s).1 ≡ refused over_budget)
    × ((create clone (some (snap 2 1)) 31 s).1 ≡ refused already_exists)
unfolding program
store_tests = (refl, refl, refl, refl, refl)

run-IsBounded_example : IsBounded (run clone calls (new_memory_store 50 2 100))
run-IsBounded_example = run-IsBounded clone calls 50 2 100

abbrev one_entry : MemoryStore ℕ
one_entry = record {
  items = (1 ∷ [], first) ∷ [];
  sizes = (1 ∷ [], 60) ∷ [];
  total_bytes = 60;
  ttl = 50;
  max_entries = 2;
  max_bytes = 100;
  last_cleanup = 59;
  cleanup_interval = 60;
}

abbrev empty_store : MemoryStore ℕ
empty_store = record {
  items = [];
  sizes = [];
  total_bytes = 0;
  ttl = 50;
  max_entries = 2;
  max_bytes = 100;
  last_cleanup = 0;
  cleanup_interval = 60;
}

empty_store-IsBounded : IsBounded empty_store
unfolding sum
empty_store-IsBounded = record {
  balanced = record { same = refl; unique_items = tt; unique_sizes = tt; total = refl };
  capped = refl;
}

get-create_example :
    (get clone (1 ∷ []) 59 (create clone (some (snap 1 60)) 10 empty_store).0).1 ≡ found first
unfolding program
get-create_example =
    get-create clone (snap 1 60) (snap 1 60) 60 10 59 empty_store empty_store-IsBounded refl refl
      refl refl

delete-expired_example :
    ((get clone (1 ∷ []) 60 one_entry).1 ≡ refused not_found)
    × ((delete clone (1 ∷ []) 60 one_entry).1 ≡ done)
unfolding program
delete-expired_example = delete-expired clone (1 ∷ []) first 60 one_entry refl refl refl
