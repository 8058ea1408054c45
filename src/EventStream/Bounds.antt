-- ===== src/EventStream/Bounds.antt =====
-- What internal/streaming/observed_sse_stream.go keeps of a stream stays small, and its loop ends.
use thinroute.Prelude.{
  Bool, Bool-cases, List, Option, [], ap, arith, drop, false, if◌then◌else◌, inl, inr, leb, length,
  length-append, length-drop, ltb, min, none, refl, some, subst, suc, sym, true, zero, ℕ, ◌++◌, ◌+◌,
  ◌-◌, ◌<◌, ◌||◌, ◌∷◌, ◌≡◌, ◌≤◌,
}
use thinroute.EventStream.{
  ObservedStream, joined_suffix, max_pending_event_bytes, Bytes, max_boundary_tail_bytes,
  next_joined_event_boundary, next_event_boundary, data_offset_after_boundary,
}
use thinroute.Text.{is_empty}
use thinroute.EventStream.Beyond.{next_joined_beyond, next_event_boundary-long}
use thinroute.EventStream.Chunks.{
  start_discarding, Turn, discard_turn, event_turn, turn, Run, pending_turn, process_chunk,
  return_with, save_pending, go_on, follow, chunk_loop, with_payload, payload_of, prepend_payload,
}
use thinroute.EventStream.Frames.{loop-nil, offset_after, loop-turn}

pub record IsBounded (s : ObservedStream) : Type 0 where
  pub pending_bound : length s.pending ≤ max_pending_event_bytes
  pub tail_bound : length s.discard_tail ≤ max_boundary_tail_bytes

joined_suffix-bound : (p c : Bytes) → length (joined_suffix p c 3) ≤ 3
unfolding joined_suffix
joined_suffix-bound p c =
    let d = length-drop (length c - 3) c in
    let e = length-drop (length p - min (3 - length c) (length p)) p in
    let a = length-append (drop (length p - min (3 - length c) (length p)) p) c in
    elim (Bool-cases (leb 3 (length c))) [
      | inl h ↦ rw h (ground (arith, d))
      | inr h ↦ rw h (ground (arith, e, a))
    ]

start_discarding-IsBounded : (p c : Bytes) (s : ObservedStream) → IsBounded (start_discarding p c s)
unfolding start_discarding
start_discarding-IsBounded p c s = record {
  pending_bound = omega arith;
  tail_bound = joined_suffix-bound p c;
}

-- A turn ends in a bounded state, and if the loop goes on, fewer than n bytes are left.
pub data Progress (n : ℕ) : Turn → Type 0 where
  returns : (s : ObservedStream) → IsBounded s → Progress n (return_with s)
  goes_on :
      (s : ObservedStream) (rest : Bytes) (event : Option Bytes)
      → IsBounded s
      → length rest < n
      → Progress n (go_on s rest event)

discard_turn-Progress :
    (s : ObservedStream) (c : Bytes) (o : Option (ℕ × ℕ))
    → IsBounded s
    → 1 ≤ length c
    → next_joined_event_boundary s.discard_tail c ≡ o
    → Progress (length c) (discard_turn s c o)
unfolding discard_turn
discard_turn-Progress s c none b h e =
    returns (record s { discard_tail = joined_suffix s.discard_tail c 3 })
      (record {
        pending_bound = b.pending_bound;
        tail_bound = joined_suffix-bound s.discard_tail c;
      })
discard_turn-Progress s c (some (i, l)) b h e =
    let over = next_joined_beyond s.discard_tail c i l e in
    let n = length s.discard_tail in
    let d = length-drop (data_offset_after_boundary n i l) c in
    let o = offset_after n i l over in
    goes_on (record s { discarding = false; discard_tail = [] })
      (drop (data_offset_after_boundary n i l) c) none
      (record { pending_bound = b.pending_bound; tail_bound = omega arith })
      (omega (arith, d, o, over, h))

event_turn-Progress :
    (s : ObservedStream) (c : Bytes) (o : Option (ℕ × ℕ))
    → IsBounded s
    → 1 ≤ length c
    → next_event_boundary c ≡ o
    → Progress (length c) (event_turn s c o)
unfolding event_turn save_pending
event_turn-Progress s c none b h e = elim (Bool-cases (is_empty c)) [
  | inl x ↦ rw x (returns s b)
  | inr x ↦ elim (Bool-cases (ltb max_pending_event_bytes (length c))) [
    | inl y ↦ rw (x, y) (returns (start_discarding [] c s) (start_discarding-IsBounded [] c s))
    | inr y ↦
        rw (x, y)
          (returns (record s { pending = c })
            (record { pending_bound = ground (arith, y); tail_bound = b.tail_bound }))
  ]
]
event_turn-Progress s c (some (i, l)) b h e =
    let long = next_event_boundary-long c i l e in
    let d = length-drop (i + l) c in goes_on s (drop (i + l) c) _ b (omega (arith, d, long, h))

turn-Progress :
    (s : ObservedStream) (c : Bytes) → IsBounded s → 1 ≤ length c → Progress (length c) (turn s c)
unfolding turn
turn-Progress s c b h =
    choose-Progress s.discarding
      (discard_turn-Progress s c (next_joined_event_boundary s.discard_tail c) b h refl)
      (event_turn-Progress s c (next_event_boundary c) b h refl)
  where
    choose-Progress :
        {t u : Turn} (d : Bool)
        → Progress (length c) t
        → Progress (length c) u
        → Progress (length c) (if d then t else u)
    choose-Progress true p q = p
    choose-Progress false p q = q

-- The run ends in a bounded state.
abbrev pub Ends : Run → Type 0
Ends r = (s : ObservedStream) × ((payloads : List Bytes) × ((r ≡ some (s, payloads)) × IsBounded s))

follow-Ends :
    (n : ℕ) (on : ObservedStream → Bytes → Run) (t : Turn)
    → Progress n t
    → ((s : ObservedStream) (rest : Bytes) → IsBounded s → length rest < n → Ends (on s rest))
    → Ends (follow on t)
follow-Ends n on (return_with s) (returns s' b) f = (s, ([], (refl, b)))
follow-Ends n on (go_on s rest event) (goes_on s' rest' event' b h) f =
    let (last, (payloads, (e, bounded))) = f s rest b h in
    (
      last,
      (
        with_payload (payload_of event) payloads,
        (ap (prepend_payload (payload_of event)) e, bounded),
      ),
    )

chunk_loop-Ends :
    (fuel : ℕ) (s : ObservedStream) (c : Bytes)
    → IsBounded s
    → length c < fuel
    → Ends (chunk_loop fuel s c)
chunk_loop-Ends zero s c b h = absurd (omega (arith, h))
chunk_loop-Ends (suc fuel) s [] b h = (s, ([], (loop-nil (suc fuel) s, b)))
chunk_loop-Ends (suc fuel) s (x ∷ c) b h =
    subst Ends (sym (loop-turn fuel s x c (turn s (x ∷ c)) refl)) (
      follow-Ends (length (x ∷ c)) (λ s' rest. chunk_loop fuel s' rest) (turn s (x ∷ c))
        (turn-Progress s (x ∷ c) b (omega arith))
        (λ s' rest b' l. chunk_loop-Ends fuel s' rest b' (omega (arith, l, h))))

pending_turn-Progress :
    (s : ObservedStream) (c : Bytes) (o : Option (ℕ × ℕ))
    → IsBounded s
    → Progress (suc (length c)) (pending_turn s c o)
unfolding pending_turn
pending_turn-Progress s c none b =
    let a = length-append s.pending c in
    elim (Bool-cases (
      ltb max_pending_event_bytes (length c)
      || ltb (max_pending_event_bytes - length c) (length s.pending))) [
        | inl x ↦
            rw x
              (returns (start_discarding s.pending c s) (start_discarding-IsBounded s.pending c s))
        | inr x ↦ rw x (
            returns (record s { pending = s.pending ++ c })
              (record { pending_bound = ground (arith, a, x); tail_bound = b.tail_bound }))
      ]
pending_turn-Progress s c (some (i, l)) b =
    let done : ObservedStream = record s { pending = [] } in
    let bounded : IsBounded done = record {
      pending_bound = omega arith;
      tail_bound = b.tail_bound;
    } in
    let n = length s.pending in
    let d = length-drop (data_offset_after_boundary n i l) c in
    let e = length-drop (i - n + l) c in
    elim (Bool-cases (ltb max_pending_event_bytes i)) [
      | inl x ↦ rw x (goes_on done _ none bounded (omega (arith, d)))
      | inr x ↦ elim (Bool-cases (ltb i n)) [
        | inl y ↦ rw (x, y) (goes_on done _ _ bounded (omega (arith, d)))
        | inr y ↦ elim (Bool-cases (ltb (max_pending_event_bytes - (i - n)) n)) [
          | inl z ↦ rw (x, y, z) (goes_on done _ none bounded (omega (arith, e)))
          | inr z ↦ rw (x, y, z) (goes_on done _ _ bounded (omega (arith, e)))
        ]
      ]
    ]

-- On every chunk the loop of processChunk ends, its fuel is never spent, and at most 256 KiB are
-- pending and at most 3 bytes are kept of a discarded event. Condition: they are before the chunk.
pub process_chunk-Ends :
    (s : ObservedStream) (chunk : Bytes) → IsBounded s → Ends (process_chunk s chunk)
unfolding process_chunk
process_chunk-Ends s c b = elim (Bool-cases (is_empty s.pending)) [
  | inl x ↦ rw x (chunk_loop-Ends (suc (length c)) s c b (omega arith))
  | inr x ↦ rw x (
      follow-Ends (suc (length c)) (λ s' rest. chunk_loop (suc (length c)) s' rest)
        (pending_turn s c (next_joined_event_boundary s.pending c))
        (pending_turn-Progress s c (next_joined_event_boundary s.pending c) b)
        (λ s' rest b' l. chunk_loop-Ends (suc (length c)) s' rest b' l))
]
