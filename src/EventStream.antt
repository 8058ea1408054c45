-- ===== src/EventStream.antt =====
-- internal/streaming/observed_sse_stream.go: the events of a stream of server-sent events, found in
-- chunks that end anywhere. A chunk is what one Read gives. A payload that is dispatched is an entry
-- of a list; decoding it as JSON and telling the observers is not modelled.
pub mod Boundary
pub mod Joined
pub mod Beyond
pub mod Chunks
pub mod Frames
pub mod Bounds
mod Tests
use thinroute.Text.Split.{join_texts, split}
use thinroute.Text.{is_empty, has_prefix, text_eq, contains, codes}
use thinroute.Prelude.{
  Bool, List, Option, [], drop, false, get_elem?, if◌then◌else◌, leb, length, ltb, min, none, not,
  some, suc, true, zero, ℕ, ◌&&◌, ◌*◌, ◌++◌, ◌+◌, ◌-◌, ◌==◌, ◌∷◌,
}

abbrev pub Bytes : Type 0
Bytes = List ℕ

abbrev pub max_pending_event_bytes : ℕ
max_pending_event_bytes = 256 * 1024

abbrev pub max_boundary_tail_bytes : ℕ
max_boundary_tail_bytes = 3

abbrev pub lf_event_boundary : Bytes
lf_event_boundary = 10 ∷ 10 ∷ []

abbrev pub crlf_event_boundary : Bytes
crlf_event_boundary = 13 ∷ 10 ∷ 13 ∷ 10 ∷ []

-- The fields that change; `pending` nil is the empty list.
pub record ObservedStream : Type 0 where
  pub pending : Bytes
  pub discard_tail : Bytes
  pub discarding : Bool

abbrev pub later : Option ℕ → Option ℕ
later none = none
later (some i) = some (suc i)

-- bytes.Index(data, sep); `none` is -1.
unfoldable pub index_of : Bytes → Bytes → Option ℕ
index_of [] sep = if is_empty sep then some 0 else none
index_of (b ∷ chunk) sep =
    let on = index_of chunk sep in if has_prefix (b ∷ chunk) sep then some 0 else later on

-- The switch of nextEventBoundary.
abbrev pub nearer : Option ℕ → Option ℕ → Option (ℕ × ℕ)
nearer none none = none
nearer none (some crlf) = some (crlf, 4)
nearer (some lf) none = some (lf, 2)
nearer (some lf) (some crlf) = if ltb lf crlf then some (lf, 2) else some (crlf, 4)

-- nextEventBoundary: the index and the length of the separator.
unfoldable pub next_event_boundary : Bytes → Option (ℕ × ℕ)
next_event_boundary chunk =
    nearer (index_of chunk lf_event_boundary) (index_of chunk crlf_event_boundary)

-- The byte at a position of the two slices.
unfoldable pub joined_byte : (prefix chunk : Bytes) → ℕ → Option ℕ
joined_byte prefix chunk at =
    if ltb at (length prefix) then get_elem? prefix at else get_elem? chunk (at - length prefix)

abbrev pub is_byte : Option ℕ → ℕ → Bool
is_byte none want = false
is_byte (some got) want = got == want

-- joinedBytesMatch
unfoldable pub joined_bytes_match : (prefix chunk : Bytes) → (start : ℕ) → (boundary : Bytes) → Bool
joined_bytes_match prefix chunk start [] = true
joined_bytes_match prefix chunk start (want ∷ boundary) =
    is_byte (joined_byte prefix chunk start) want
    && joined_bytes_match prefix chunk (start + 1) boundary

-- `idx == -1 || offset < idx`
abbrev pub improves : ℕ → Option (ℕ × ℕ) → Bool
improves offset none = true
improves offset (some (idx, sep_len)) = ltb offset idx

-- The body of the inner loop of nextBoundaryAcrossJoin.
unfoldable pub check_boundary : (prefix chunk : Bytes) → ℕ → Bytes → Option (ℕ × ℕ) → Option (ℕ × ℕ)
check_boundary prefix chunk offset boundary best =
    if leb (offset + length boundary) (length prefix)
    then best
    else if joined_bytes_match prefix chunk offset boundary && improves offset best
    then some (offset, length boundary)
    else best

-- The outer loop, for the given number of offsets.
unfoldable pub cross_from :
    (prefix chunk : Bytes) → (count offset : ℕ) → Option (ℕ × ℕ) → Option (ℕ × ℕ)
cross_from prefix chunk zero offset best = best
cross_from prefix chunk (suc count) offset best = cross_from prefix chunk count (offset + 1) (
    check_boundary prefix chunk offset crlf_event_boundary
      (check_boundary prefix chunk offset lf_event_boundary best))

-- nextBoundaryAcrossJoin
unfoldable pub next_boundary_across_join : (prefix chunk : Bytes) → Option (ℕ × ℕ)
next_boundary_across_join prefix chunk =
    let start = length prefix - max_boundary_tail_bytes in
    cross_from prefix chunk (length prefix - start) start none

abbrev pub shifted : ℕ → Option (ℕ × ℕ) → Option (ℕ × ℕ)
shifted n none = none
shifted n (some (idx, sep_len)) = some (n + idx, sep_len)

-- The end of nextJoinedEventBoundary: the boundary in the data, if it is nearer.
abbrev pub nearer_in_data : Option (ℕ × ℕ) → Option (ℕ × ℕ) → Option (ℕ × ℕ)
nearer_in_data cross none = cross
nearer_in_data none (some b) = some b
nearer_in_data (some (idx, sep_len)) (some (data_idx, data_len)) =
    if ltb data_idx idx then some (data_idx, data_len) else some (idx, sep_len)

-- nextJoinedEventBoundary
unfoldable pub next_joined_event_boundary : (prefix chunk : Bytes) → Option (ℕ × ℕ)
next_joined_event_boundary prefix chunk =
    nearer_in_data (next_boundary_across_join prefix chunk)
      (shifted (length prefix) (next_event_boundary chunk))

-- dataOffsetAfterBoundary
unfoldable pub data_offset_after_boundary : (prefix_len idx sep_len : ℕ) → ℕ
data_offset_after_boundary prefix_len idx sep_len =
    if leb prefix_len idx
    then idx - prefix_len + sep_len
    else if leb sep_len (prefix_len - idx)
    then 0
    else sep_len - (prefix_len - idx)

-- joinedSuffix
unfoldable pub joined_suffix : (prefix chunk : Bytes) → ℕ → Bytes
joined_suffix prefix chunk n =
    if n == 0
    then []
    else if leb n (length chunk)
    then drop (length chunk - n) chunk
    else drop (length prefix - min (n - length chunk) (length prefix)) prefix ++ chunk

-- The payload after the colon of a data line.
abbrev pub after_space : Bytes → Bytes
after_space [] = []
after_space (b ∷ payload) = if b == 32 then payload else b ∷ payload

-- bytes.TrimSuffix(line, "\r")
unfoldable pub trim_cr : Bytes → Bytes
trim_cr [] = []
trim_cr (b ∷ []) = if b == 13 then [] else b ∷ []
trim_cr (b ∷ c ∷ line) = b ∷ trim_cr (c ∷ line)

-- parseDataLine
unfoldable pub parse_data_line : Bytes → Option Bytes
parse_data_line raw =
    let line = trim_cr raw in
    if not (has_prefix line (codes "data:")) then none else some (after_space (drop 5 line))

-- The loop of processEvent over the lines.
unfoldable pub payload_lines : List Bytes → List Bytes
payload_lines [] = []
payload_lines (line ∷ lines) =
    let rest = payload_lines lines in
    elim (parse_data_line line) [ some payload ↦ payload ∷ rest | none ↦ rest ]

abbrev pub joined_payload : List Bytes → Option Bytes
joined_payload [] = none
joined_payload (p ∷ ps) = some (join_texts (p ∷ ps) 10)

-- dispatchPayload up to the filters: the payload donePayload, which closes a stream, is dropped.
abbrev pub but_done : Option Bytes → Option Bytes
but_done none = none
but_done (some payload) = if text_eq payload (codes "[DONE]") then none else some payload

-- processEvent: the payload that is decoded, if there is one. The fast path is the case of one line.
unfoldable pub process_event : Bytes → Option Bytes
process_event event = but_done (
    if not (contains event (10 ∷ []))
    then parse_data_line event
    else joined_payload (payload_lines (split event 10)))
