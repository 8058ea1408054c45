-- ===== src/ConversationStore/Tests.antt =====
-- Runs of the conversation store, and its theorems at concrete inputs.
use thinroute.Prelude.{[], refl, some, ◌∷◌, ◌≡◌}
use thinroute.ConversationStore.{append_items, delete, Items, refused, added_bytes}
use thinroute.Map.{lookup, remove, insert, sum}
use thinroute.ResponseStore.{not_found, done}
use thinroute.Retention.{
  Snapshot, MemoryStore, expired, cleanup_expired_locked, enforce_bounds_locked, put_locked,
  remove_locked, over_byte_budget,
}
use thinroute.Text.{text_eq}
use thinroute.ConversationStore.Append.{append_items-IsBounded, append_items-appends}
use thinroute.Retention.Shrink.{IsBounded}

program : Unit {0}
unfolding append_items delete expired cleanup_expired_locked added_bytes enforce_bounds_locked
    put_locked remove_locked over_byte_budget lookup remove insert text_eq sum
program = tt

abbrev talk : Snapshot Items
talk = record { id = 1 ∷ []; payload = (7 ∷ []) ∷ []; stored_at = 10; expires_at = 60 }

abbrev one_entry : MemoryStore Items
one_entry = record {
  items = (1 ∷ [], talk) ∷ [];
  sizes = (1 ∷ [], 60) ∷ [];
  total_bytes = 60;
  ttl = 50;
  max_entries = 2;
  max_bytes = 100;
  last_cleanup = 59;
  cleanup_interval = 60;
}

-- Unlike the response store, this one does not delete what has expired.
conversation_tests :
    ((delete (1 ∷ []) 60 one_entry).1 ≡ refused not_found)
    × ((delete (1 ∷ []) 59 one_entry).1 ≡ done)
    × ((append_items (1 ∷ []) ((8 ∷ 9 ∷ []) ∷ []) 59 one_entry).0.total_bytes ≡ 62)
unfolding program
conversation_tests = (refl, refl, refl)

one_entry-IsBounded : IsBounded one_entry
unfolding program
one_entry-IsBounded = record {
  balanced = record {
    same = refl;
    unique_items = (refl, tt);
    unique_sizes = (refl, tt);
    total = refl;
  };
  capped = refl;
}

append_items-IsBounded_example :
    IsBounded (append_items (1 ∷ []) ((8 ∷ 9 ∷ []) ∷ []) 59 one_entry).0
append_items-IsBounded_example =
    append_items-IsBounded (1 ∷ []) ((8 ∷ 9 ∷ []) ∷ []) 59 one_entry one_entry-IsBounded

append_items-appends_example :
    lookup (1 ∷ []) (append_items (1 ∷ []) ((8 ∷ 9 ∷ []) ∷ []) 59 one_entry).0.items
    ≡ some (record talk { payload = (7 ∷ []) ∷ (8 ∷ 9 ∷ []) ∷ [] })
unfolding program
append_items-appends_example =
    append_items-appends talk (1 ∷ []) (8 ∷ 9 ∷ []) [] 59 one_entry refl refl
