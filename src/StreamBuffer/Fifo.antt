-- ===== src/StreamBuffer/Fifo.antt =====
-- The buffer is a queue of bytes.
use thinroute.Errors.{Bytes}
use thinroute.StreamBuffer.{
  StreamBuffer, copy_into, len, prepare_data, prepare_append, append_bytes, consume, unread,
  read_into, bytes_of, release,
}
use thinroute.Prelude.{
  ==_iff, Bool-cases, List, Option-cases, [], ap, arith, drop, inl, inr, leb, leb→le, length,
  length-drop, refl, suc, sym, take, true, zero, zero-or_pos, ℕ, ◌++◌, ◌+◌, ◌-◌, ◌==◌, ◌||◌, ◌∙◌,
  ◌∷◌, ◌≡◌, ◌≤◌,
}
use mathlib.Core.List.{append-nil}

-- The bytes that have been appended and not yet been consumed.
abbrev pub queue : StreamBuffer → Bytes
queue b = drop b.read (bytes_of b.data_bytes)

drop_all : (n : ℕ) (xs : Bytes) → length xs ≤ n → drop n xs ≡ []
drop_all zero [] h = refl
drop_all (suc n) [] h = refl
drop_all zero (x ∷ xs) h = ground arith
drop_all (suc n) (x ∷ xs) h = drop_all n xs (omega arith)

drop-drop : (n m : ℕ) (xs : Bytes) → drop n (drop m xs) ≡ drop (m + n) xs
drop-drop n zero xs = ap (λ k. drop k xs) (omega arith)
drop-drop n (suc m) [] = drop_all n [] (omega arith) ∙ sym (drop_all (suc m + n) [] (omega arith))
drop-drop n (suc m) (x ∷ xs) =
    let same : suc (m + n) ≡ suc m + n = omega arith in
    drop-drop n m xs ∙ ap (λ k. drop k (x ∷ xs)) same

take_all : (n : ℕ) (xs : Bytes) → length xs ≤ n → take n xs ≡ xs
take_all zero [] h = refl
take_all (suc n) [] h = refl
take_all zero (x ∷ xs) h = ground arith
take_all (suc n) (x ∷ xs) h = ap (λ r. x ∷ r) (take_all n xs (omega arith))

take-append : (xs ys : Bytes) → take (length xs) (xs ++ ys) ≡ xs
take-append [] ys = refl
take-append (x ∷ xs) ys = ap (λ r. x ∷ r) (take-append xs ys)

-- A copy of the unread bytes to the front, cut to their number, is the unread bytes.
moved : (n : ℕ) (xs : Bytes) → take (length xs - n) (copy_into xs (drop n xs)) ≡ drop n xs
unfolding copy_into
moved n xs =
    let tail = drop n xs in
    let shorter : length tail ≤ length xs = omega (arith, length-drop n xs) in
    rw (sym (length-drop n xs))
      (rw (take_all (length xs) tail shorter) (take-append tail (drop (length tail) xs)))

len-queue : (b : StreamBuffer) → len b ≡ length (queue b)
unfolding len
len-queue b = ground (arith, length-drop b.read (bytes_of b.data_bytes))

Prepared : StreamBuffer → Bytes → Type 0
Prepared b bytes = (b.read ≡ 0) × (bytes_of b.data_bytes ≡ bytes)

prepare_data-Prepared :
    (bytes : Bytes) (read : ℕ) → Prepared (prepare_data bytes read) (drop read bytes)
unfolding prepare_data Prepared
prepare_data-Prepared bytes read = elim (zero-or_pos read) [
  | inl e ↦ rw e (refl, refl)
  | inr h ↦ elim (Bool-cases (leb (length bytes) read)) [
    | inl over ↦ ground (arith, over, drop_all read bytes (leb→le (length bytes) read over))
    | inr under ↦ ground (arith, under, moved read bytes)
  ]
]

prepare_append-Prepared : (b : StreamBuffer) → Prepared (prepare_append b) (queue b)
unfolding prepare_append Prepared
prepare_append-Prepared b = elim (Option-cases b.data_bytes) [
  | inl e ↦ rw e (refl, sym (drop_all b.read [] (omega arith)))
  | inr (bytes, e) ↦ rw e (prepare_data-Prepared bytes b.read)
]

append_bytes-queue : (xs : Bytes) (b : StreamBuffer) → queue (append_bytes xs b) ≡ queue b ++ xs
unfolding append_bytes Prepared
append_bytes-queue [] b = sym (append-nil (queue b))
append_bytes-queue (x ∷ xs) b =
    let (front, same) = prepare_append-Prepared b in rw front (rw same refl)

-- Nothing to drop, or nothing to drop it from.
drop_idle : (n : ℕ) (xs : Bytes) → ((n == 0) || (length xs == 0)) ≡ true → xs ≡ drop n xs
drop_idle zero xs h = refl
drop_idle (suc n) [] h = refl
drop_idle (suc n) (x ∷ xs) h = ground arith

take_idle : (n : ℕ) (xs : Bytes) → ((n == 0) || (length xs == 0)) ≡ true → [] ≡ take n xs
take_idle zero xs h = refl
take_idle (suc n) [] h = refl
take_idle (suc n) (x ∷ xs) h = ground arith

consume-queue : (n : ℕ) (b : StreamBuffer) → queue (consume n b) ≡ drop n (queue b)
unfolding consume
consume-queue n b =
    let size = len-queue b in
    elim (Bool-cases ((n == 0) || (len b == 0))) [
      | inl idle ↦
          rw idle (drop_idle n (queue b) (ap (λ k. (n == 0) || (k == 0)) (sym size) ∙ idle))
      | inr busy ↦ elim (Bool-cases (leb (len b) n)) [
        | inl over ↦
            rw busy
              (rw over (sym (drop_all n (queue b) (omega (arith, size, leb→le (len b) n over)))))
        | inr under ↦ rw busy (rw under (sym (drop-drop n b.read (bytes_of b.data_bytes))))
      ]
    ]

drop-length-take : (n : ℕ) (xs : Bytes) → drop (length (take n xs)) xs ≡ drop n xs
drop-length-take zero xs = refl
drop-length-take (suc n) [] = refl
drop-length-take (suc n) (x ∷ xs) = drop-length-take n xs

no_bytes : (xs : Bytes) → length xs ≡ 0 → [] ≡ xs
no_bytes [] h = refl
no_bytes (x ∷ xs) h = ground arith

unread-queue : (b : StreamBuffer) → unread b ≡ queue b
unfolding unread
unread-queue b = elim (Bool-cases (len b == 0)) [
  | inl none_left ↦
      rw none_left (no_bytes (queue b) (omega (arith, len-queue b, (==_iff (len b) 0).0 none_left)))
  | inr some_left ↦ rw some_left refl
]

read_into-queue :
    (n : ℕ) (b : StreamBuffer)
    → ((read_into n b).0 ≡ take n (queue b)) × (queue (read_into n b).1 ≡ drop n (queue b))
unfolding read_into
read_into-queue n b =
    let size = len-queue b in
    elim (Bool-cases ((n == 0) || (len b == 0))) [
      | inl idle ↦
          let same = ap (λ k. (n == 0) || (k == 0)) (sym size) ∙ idle in
          rw idle (take_idle n (queue b) same, drop_idle n (queue b) same)
      | inr busy ↦
          rw busy (refl, consume-queue (length (take n (queue b))) b ∙ drop-length-take n (queue b))
    ]

-- What a user of the buffer does.
pub data Use : Type 0 where
  appends : Bytes → Use
  reads consumes : ℕ → Use
  releases : Use

-- The bytes that a use hands out, and the buffer after it.
abbrev pub use_buffer : Use → StreamBuffer → Bytes × StreamBuffer
use_buffer (appends xs) b = ([], append_bytes xs b)
use_buffer (reads n) b = read_into n b
use_buffer (consumes n) b = ([], consume n b)
use_buffer releases b = ([], release b)

-- The same on a queue.
abbrev pub use_queue : Use → Bytes → Bytes × Bytes
use_queue (appends xs) q = ([], q ++ xs)
use_queue (reads n) q = (take n q, drop n q)
use_queue (consumes n) q = ([], drop n q)
use_queue releases q = ([], [])

-- What a user sees: after each use the bytes handed out, Unread and Len.
unfoldable pub seen : List Use → StreamBuffer → List (Bytes × (Bytes × ℕ))
seen [] b = []
seen (u ∷ rest) b = let r = use_buffer u b in (r.0, (unread r.1, len r.1)) ∷ seen rest r.1

unfoldable pub seen_queue : List Use → Bytes → List (Bytes × (Bytes × ℕ))
seen_queue [] q = []
seen_queue (u ∷ rest) q = let r = use_queue u q in (r.0, (r.1, length r.1)) ∷ seen_queue rest r.1

use-queue :
    (u : Use) (b : StreamBuffer)
    → ((use_buffer u b).0 ≡ (use_queue u (queue b)).0)
      × (queue (use_buffer u b).1 ≡ (use_queue u (queue b)).1)
use-queue (appends xs) b = (refl, append_bytes-queue xs b)
use-queue (reads n) b = read_into-queue n b
use-queue (consumes n) b = (refl, consume-queue n b)
use-queue releases b = (refl, refl)

-- A stream buffer is a first-in first-out queue of bytes: whatever a user appends, reads, consumes
-- and releases, the bytes it reads, and what Unread and Len answer after each step, are those of
-- the queue that holds the unread bytes.
pub seen-queue : (uses : List Use) (b : StreamBuffer) → seen uses b ≡ seen_queue uses (queue b)
unfolding seen seen_queue
seen-queue [] b = refl
seen-queue (u ∷ rest) b =
    let (same_out, same_queue) = use-queue u b in
    rw (sym same_out) (
      rw (sym same_queue) (
        rw (unread-queue (use_buffer u b).1) (
          rw (len-queue (use_buffer u b).1) (
            ap
              (λ r.
                ((use_buffer u b).0, (queue (use_buffer u b).1, length (queue (use_buffer u b).1)))
                ∷ r)
              (seen-queue rest (use_buffer u b).1)))))
