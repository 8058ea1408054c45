-- ===== src/StreamBuffer.antt =====
-- internal/streaming/stream_buffer.go: the byte buffer of the stream converters. The storage
-- behind a slice is its bytes: its capacity and the pool it comes from are left out. A count to
-- consume is not negative.
pub mod Fifo
mod Tests
use thinroute.Errors.{Bytes}
use thinroute.Prelude.{
  Option, [], drop, if◌then◌else◌, leb, length, none, some, take, ℕ, ◌++◌, ◌+◌, ◌-◌, ◌==◌, ◌||◌,
  ◌∷◌,
}

-- `none` is the nil slice of a buffer that is new or released.
pub record StreamBuffer : Type 0 where
  pub data_bytes : Option Bytes
  pub read : ℕ

abbrev pub bytes_of : Option Bytes → Bytes
bytes_of none = []
bytes_of (some bytes) = bytes

-- copy(dst, src), as the new content of dst.
unfoldable pub copy_into : Bytes → Bytes → Bytes
copy_into dst src = take (length dst) src ++ drop (length src) dst

-- NewStreamBuffer
abbrev pub new_stream_buffer : StreamBuffer
new_stream_buffer = record { data_bytes = some []; read = 0 }

-- Len
unfoldable pub len : StreamBuffer → ℕ
len b = let size = length (bytes_of b.data_bytes) in if leb size b.read then 0 else size - b.read

-- Unread
unfoldable pub unread : StreamBuffer → Bytes
unread b = if len b == 0 then [] else drop b.read (bytes_of b.data_bytes)

-- prepareAppend, of a buffer whose slice is not nil.
prepare_data : Bytes → ℕ → StreamBuffer
unfolding copy_into
prepare_data bytes read =
    if read == 0
    then record { data_bytes = some bytes; read = read }
    else if leb (length bytes) read
    then record { data_bytes = some []; read = 0 }
    else record {
      data_bytes = some (take (length bytes - read) (copy_into bytes (drop read bytes)));
      read = 0;
    }

abbrev prepare_at : Option Bytes → ℕ → StreamBuffer
prepare_at none read = new_stream_buffer
prepare_at (some bytes) read = prepare_data bytes read

-- prepareAppend
prepare_append : StreamBuffer → StreamBuffer
unfolding prepare_data
prepare_append b = prepare_at b.data_bytes b.read

-- AppendBytes, AppendString
unfoldable pub append_bytes : Bytes → StreamBuffer → StreamBuffer
unfolding prepare_append
append_bytes [] b = b
append_bytes (x ∷ xs) b =
    let ready = prepare_append b in
    record ready { data_bytes = some (bytes_of ready.data_bytes ++ x ∷ xs) }

-- Consume
unfoldable pub consume : ℕ → StreamBuffer → StreamBuffer
unfolding len
consume n b =
    if (n == 0) || (len b == 0)
    then b
    else if leb (len b) n
    then record { data_bytes = some []; read = 0 }
    else record b { read = b.read + n }

-- Read, into a slice of so many bytes; what it copies there, and the buffer after it.
unfoldable pub read_into : ℕ → StreamBuffer → Bytes × StreamBuffer
unfolding consume
read_into size b =
    let copied = take size (drop b.read (bytes_of b.data_bytes)) in
    if (size == 0) || (len b == 0) then ([], b) else (copied, consume (length copied) b)

-- Release
abbrev pub release : StreamBuffer → StreamBuffer
release b = record { data_bytes = none; read = 0 }
