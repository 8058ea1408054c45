-- ===== src/StreamBuffer/Tests.antt =====
-- A run of the stream buffer.
use thinroute.Prelude.{List, [], map, refl, ℕ, ◌∷◌, ◌≡◌}
use thinroute.Errors.{Bytes}
use thinroute.StreamBuffer.{read_into, new_stream_buffer, append_bytes, consume, copy_into}
use thinroute.StreamBuffer.Fifo.{
  Use, seen, appends, reads, seen_queue, consumes, seen-queue, releases,
}

abbrev uses : List Use
uses =
    appends (1 ∷ 2 ∷ 3 ∷ [])
    ∷ reads 2
    ∷ appends (4 ∷ 5 ∷ [])
    ∷ consumes 1
    ∷ reads 9
    ∷ releases
    ∷ appends (6 ∷ [])
    ∷ []

reads_in_order :
    map (λ (o : Bytes × (Bytes × ℕ)). o.0) (seen uses new_stream_buffer)
    ≡ [] ∷ (1 ∷ 2 ∷ []) ∷ [] ∷ [] ∷ (4 ∷ 5 ∷ []) ∷ [] ∷ [] ∷ []
unfolding seen read_into append_bytes consume copy_into
reads_in_order = refl

seen-queue_example : seen uses new_stream_buffer ≡ seen_queue uses []
seen-queue_example = seen-queue uses new_stream_buffer
