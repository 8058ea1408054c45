-- ===== src/EventStream/Chunks.antt =====
-- processChunk and Close of internal/streaming/observed_sse_stream.go. The loops are recursions on
-- fuel, of which there is as much as bytes and one more: each turn takes a byte at least.
use thinroute.Prelude.{
  List, Option, [], drop, false, if◌then◌else◌, length, ltb, none, some, suc, take, true, zero, ℕ,
  ◌++◌, ◌+◌, ◌-◌, ◌||◌, ◌∷◌,
}
use thinroute.EventStream.{
  Bytes, ObservedStream, joined_suffix, max_pending_event_bytes, next_joined_event_boundary,
  process_event, next_event_boundary, max_boundary_tail_bytes, data_offset_after_boundary,
}
use thinroute.Text.{is_empty}
use mathlib.Core.Option

-- startDiscarding
unfoldable pub start_discarding : (prefix chunk : Bytes) → ObservedStream → ObservedStream
start_discarding prefix chunk s = record s {
  pending = [];
  discarding = true;
  discard_tail = joined_suffix prefix chunk max_boundary_tail_bytes;
}

-- savePending
unfoldable pub save_pending : Bytes → ObservedStream → ObservedStream
save_pending chunk s =
    if is_empty chunk
    then s
    else if ltb max_pending_event_bytes (length chunk)
    then start_discarding [] chunk s
    else record s { pending = chunk }

-- How a turn ends: the method returns, or goes on with the rest of the chunk after an event.
pub data Turn : Type 0 where
  return_with : ObservedStream → Turn
  go_on : ObservedStream → (rest : Bytes) → (event : Option Bytes) → Turn

-- The turn of the loop while an event is discarded.
unfoldable pub discard_turn : ObservedStream → Bytes → Option (ℕ × ℕ) → Turn
discard_turn s chunk none =
    return_with
      (record s { discard_tail = joined_suffix s.discard_tail chunk max_boundary_tail_bytes })
discard_turn s chunk (some (idx, sep_len)) =
    go_on (record s { discarding = false; discard_tail = [] })
      (drop (data_offset_after_boundary (length s.discard_tail) idx sep_len) chunk) none

-- The turn of the loop at the next boundary.
unfoldable pub event_turn : ObservedStream → Bytes → Option (ℕ × ℕ) → Turn
event_turn s chunk none = return_with (save_pending chunk s)
event_turn s chunk (some (idx, sep_len)) =
    let event =
      if ltb max_pending_event_bytes idx
      then none
      else if ltb 0 idx
      then some (take idx chunk)
      else none in
    go_on s (drop (idx + sep_len) chunk) event

-- The body of the loop of processChunk.
unfoldable pub turn : ObservedStream → Bytes → Turn
turn s chunk =
    if s.discarding
    then discard_turn s chunk (next_joined_event_boundary s.discard_tail chunk)
    else event_turn s chunk (next_event_boundary chunk)

abbrev pub with_payload : Option Bytes → List Bytes → List Bytes
with_payload none payloads = payloads
with_payload (some payload) payloads = payload ∷ payloads

abbrev pub payload_of : Option Bytes → Option Bytes
payload_of none = none
payload_of (some event) = process_event event

abbrev pub Run : Type 0
Run = Option (ObservedStream × List Bytes)

abbrev pub prepend_payload : Option Bytes → Run → Run
prepend_payload p none = none
prepend_payload p (some (s, payloads)) = some (s, with_payload p payloads)

abbrev pub follow : (ObservedStream → Bytes → Run) → Turn → Run
follow on (return_with s) = some (s, [])
follow on (go_on s rest event) = prepend_payload (payload_of event) (on s rest)

-- The loop of processChunk; `none` when the fuel is spent.
unfoldable pub chunk_loop : ℕ → ObservedStream → Bytes → Run
chunk_loop fuel s [] = some (s, [])
chunk_loop zero s (b ∷ chunk) = none
chunk_loop (suc fuel) s (b ∷ chunk) =
    follow (λ s' rest. chunk_loop fuel s' rest) (turn s (b ∷ chunk))

-- The part of processChunk for a pending event, at the next boundary of what is pending and the
-- chunk together.
unfoldable pub pending_turn : ObservedStream → Bytes → Option (ℕ × ℕ) → Turn
pending_turn s chunk none =
    let pending_len = length s.pending in
    if ltb max_pending_event_bytes (length chunk)
      || ltb (max_pending_event_bytes - length chunk) pending_len
    then return_with (start_discarding s.pending chunk s)
    else return_with (record s { pending = s.pending ++ chunk })
pending_turn s chunk (some (idx, sep_len)) =
    let pending_len = length s.pending in
    let done = record s { pending = [] } in
    if ltb max_pending_event_bytes idx
    then go_on done (drop (data_offset_after_boundary pending_len idx sep_len) chunk) none
    else if ltb idx pending_len
    then go_on done (drop (data_offset_after_boundary pending_len idx sep_len) chunk)
        (some (take idx s.pending))
    else if ltb (max_pending_event_bytes - (idx - pending_len)) pending_len
    then go_on done (drop (idx - pending_len + sep_len) chunk) none
    else go_on done (drop (idx - pending_len + sep_len) chunk)
        (some (s.pending ++ take (idx - pending_len) chunk))

-- processChunk: the state after it and the payloads that it dispatches.
unfoldable pub process_chunk : ObservedStream → Bytes → Run
process_chunk s chunk =
    let loop : ObservedStream → Bytes → Run = λ s' rest. chunk_loop (suc (length chunk)) s' rest in
    if is_empty s.pending
    then loop s chunk
    else follow loop (pending_turn s chunk (next_joined_event_boundary s.pending chunk))

-- processBufferedEvents: the payloads of what is pending when the stream is closed.
abbrev pub cut_event : (Bytes → Option (List Bytes)) → Bytes → Option (ℕ × ℕ) → Option (List Bytes)
cut_event on chunk none = some (with_payload (process_event chunk) [])
cut_event on chunk (some (idx, sep_len)) =
    Option.map (with_payload (if ltb 0 idx then process_event (take idx chunk) else none))
      (on (drop (idx + sep_len) chunk))

unfoldable pub process_buffered_events : ℕ → Bytes → Option (List Bytes)
process_buffered_events fuel [] = some []
process_buffered_events zero (b ∷ chunk) = none
process_buffered_events (suc fuel) (b ∷ chunk) =
    cut_event (λ rest. process_buffered_events fuel rest) (b ∷ chunk)
      (next_event_boundary (b ∷ chunk))
