-- ===== src/EventStream/Tests.antt =====
-- Runs of processChunk on a stream whose chunks end in the middle of an event and of a boundary.
use thinroute.Prelude.{[], arith, none, refl, some, ◌++◌, ◌∷◌, ◌≡◌}
use thinroute.EventStream.{
  Bytes, process_event, next_joined_event_boundary, next_event_boundary, next_boundary_across_join,
  cross_from, check_boundary, joined_bytes_match, joined_byte, index_of, data_offset_after_boundary,
  joined_suffix, parse_data_line, trim_cr, payload_lines,
}
use thinroute.Text.{codes, has_prefix, contains, text_eq}
use thinroute.EventStream.Bounds.{Ends, process_chunk-Ends}
use thinroute.EventStream.Chunks.{
  process_chunk, chunk_loop, turn, event_turn, discard_turn, save_pending, pending_turn,
  start_discarding,
}
use thinroute.EventStream.Frames.{Framed, waiting, frame, process_chunk-Framed, tail}
use thinroute.EventStream.Joined.{next_joined-next_event}
use thinroute.Text.Split.{split, join_texts, separated}

program : Unit {0}
unfolding process_chunk chunk_loop turn event_turn discard_turn save_pending pending_turn
    start_discarding next_joined_event_boundary next_boundary_across_join cross_from check_boundary
    joined_bytes_match joined_byte next_event_boundary index_of has_prefix
    data_offset_after_boundary joined_suffix process_event parse_data_line trim_cr payload_lines
    split join_texts separated contains text_eq
program = tt

-- "data: 1\r\n\r" and "\ndata:2\n" are two chunks.
abbrev first_chunk : Bytes
first_chunk = codes "data: 1" ++ 13 ∷ 10 ∷ 13 ∷ []

abbrev second_chunk : Bytes
second_chunk = 10 ∷ (codes "data:2" ++ 10 ∷ [])

two_chunks :
    (process_chunk (waiting [] []) first_chunk ≡ some (waiting [] first_chunk, []))
    × (process_chunk (waiting [] first_chunk) second_chunk
        ≡ some (waiting [] (codes "data:2" ++ 10 ∷ []), codes "1" ∷ []))
unfolding program
two_chunks = (refl, refl)

-- Two data lines are one payload, and the one that closes the stream is none.
payloads :
    (process_event (codes "data: a" ++ 10 ∷ codes "data: b") ≡ some (codes "a" ++ 10 ∷ codes "b"))
    × (process_event (codes "data: [DONE]") ≡ none)
unfolding program
payloads = (refl, refl)

next_joined-next_event_example :
    next_joined_event_boundary first_chunk second_chunk
    ≡ next_event_boundary (first_chunk ++ second_chunk)
unfolding program
next_joined-next_event_example = next_joined-next_event first_chunk second_chunk refl

framed : Framed (first_chunk ++ second_chunk) (codes "1" ∷ []) (codes "data:2" ++ 10 ∷ [])
unfolding program
framed =
    frame (first_chunk ++ second_chunk) 7 4 [] (codes "data:2" ++ 10 ∷ []) refl (omega arith)
      (tail (codes "data:2" ++ 10 ∷ []) refl (omega arith))

process_chunk-Framed_example :
    process_chunk (waiting [] first_chunk) second_chunk
    ≡ some (waiting [] (codes "data:2" ++ 10 ∷ []), codes "1" ∷ [])
unfolding program
process_chunk-Framed_example =
    process_chunk-Framed [] first_chunk second_chunk (codes "1" ∷ []) (codes "data:2" ++ 10 ∷ [])
      refl framed

process_chunk-Ends_example : Ends (process_chunk (waiting [] first_chunk) second_chunk)
process_chunk-Ends_example =
    process_chunk-Ends (waiting [] first_chunk) second_chunk
      (record { pending_bound = omega arith; tail_bound = omega arith })
