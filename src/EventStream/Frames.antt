-- ===== src/EventStream/Frames.antt =====
-- processChunk of internal/streaming/observed_sse_stream.go finds the events of a stream wherever
-- its chunks end.
use thinroute.Prelude.{
  Bool-cases, List, Option, [], ap, arith, drop, false, if◌then◌else◌, inl, inr, leb, length,
  length-append, length-drop, ltb, none, refl, some, subst, suc, sym, take, true, zero, ℕ, ◌++◌,
  ◌+◌, ◌-◌, ◌<◌, ◌∙◌, ◌∷◌, ◌≡◌, ◌≢◌, ◌≤◌,
}
use thinroute.EventStream.{
  Bytes, process_event, next_event_boundary, data_offset_after_boundary, max_pending_event_bytes,
  ObservedStream, index_of, next_joined_event_boundary, parse_data_line, trim_cr,
}
use thinroute.Text.{contains, has_prefix}
use thinroute.EventStream.Beyond.{next_event_boundary-long, next_joined_beyond}
use thinroute.EventStream.Chunks.{
  turn, chunk_loop, pending_turn, process_chunk, event_turn, return_with, with_payload,
  save_pending, go_on, Turn, follow, prepend_payload, payload_of,
}
use thinroute.EventStream.Joined.{next_joined-next_event}

-- The events of the bytes, as payloads, and the bytes after the last boundary. No event, and not
-- the rest, is longer than the bound on a pending event.
pub data Framed : (s : Bytes) → (payloads : List Bytes) → (rest : Bytes) → Type 0 where
  tail :
      (s : Bytes)
      → next_event_boundary s ≡ none
      → length s ≤ max_pending_event_bytes
      → Framed s [] s
  frame :
      (s : Bytes) (i l : ℕ) (payloads : List Bytes) (rest : Bytes)
      → next_event_boundary s ≡ some (i, l)
      → i ≤ max_pending_event_bytes
      → Framed (drop (i + l) s) payloads rest
      → Framed s (with_payload (process_event (take i s)) payloads) rest

-- A stream that discards nothing, with bytes pending.
abbrev pub waiting : (discard_tail pending : Bytes) → ObservedStream
waiting discard_tail pending = record {
  pending = pending;
  discard_tail = discard_tail;
  discarding = false;
}

turn-none :
    (t : Bytes) (b : ℕ) (s : Bytes)
    → next_event_boundary (b ∷ s) ≡ none
    → length (b ∷ s) ≤ max_pending_event_bytes
    → turn (waiting t []) (b ∷ s) ≡ return_with (waiting t (b ∷ s))
unfolding turn event_turn save_pending
turn-none t b s h le =
    let f : ltb max_pending_event_bytes (length (b ∷ s)) ≡ false = ground (arith, le) in
    rw (h, f) refl

-- The event of a turn is empty or what stands before the boundary.
abbrev event_before : ℕ → Bytes → Option Bytes
event_before i s = if ltb 0 i then some (take i s) else none

turn-some :
    (t : Bytes) (s : Bytes) (i l : ℕ)
    → next_event_boundary s ≡ some (i, l)
    → i ≤ max_pending_event_bytes
    → turn (waiting t []) s ≡ go_on (waiting t []) (drop (i + l) s) (event_before i s)
unfolding turn event_turn
turn-some t s i l h le =
    let f : ltb max_pending_event_bytes i ≡ false = ground (arith, le) in rw h (rw f refl)

-- An empty event has no payload.
nothing_before : (i : ℕ) (s : Bytes) → payload_of (event_before i s) ≡ process_event (take i s)
unfolding process_event contains has_prefix parse_data_line trim_cr
nothing_before zero s = refl
nothing_before (suc i) s = let f : ltb 0 (suc i) ≡ true = ground arith in rw f refl

pub loop-nil : (fuel : ℕ) (s : ObservedStream) → chunk_loop fuel s [] ≡ some (s, [])
unfolding chunk_loop
loop-nil zero s = refl
loop-nil (suc fuel) s = refl

pub loop-turn :
    (fuel : ℕ) (s : ObservedStream) (b : ℕ) (c : Bytes) (t : Turn)
    → turn s (b ∷ c) ≡ t
    → chunk_loop (suc fuel) s (b ∷ c) ≡ follow (λ s' rest. chunk_loop fuel s' rest) t
unfolding chunk_loop
loop-turn fuel s b c t h = rw h refl

no_boundary : (i l : ℕ) → next_event_boundary [] ≢ some (i, l)
unfolding next_event_boundary index_of
no_boundary i l h = absurd (ground arith)

loop-Framed :
    (fuel : ℕ) (t s : Bytes) (payloads : List Bytes) (rest : Bytes)
    → length s < fuel
    → Framed s payloads rest
    → chunk_loop fuel (waiting t []) s ≡ some (waiting t rest, payloads)
loop-Framed zero t s payloads rest h f = absurd (omega (arith, h))
loop-Framed (suc fuel) t s payloads rest h (tail [] e le) = loop-nil (suc fuel) (waiting t [])
loop-Framed (suc fuel) t s payloads rest h (tail (b ∷ c) e le) =
    loop-turn fuel (waiting t []) b c (return_with (waiting t (b ∷ c))) (turn-none t b c e le)
loop-Framed (suc fuel) t s payloads rest h (frame [] i l ps r e le f) = elim (no_boundary i l e) [ ]
loop-Framed (suc fuel) t s payloads rest h (frame (b ∷ c) i l ps r e le f) =
    let long = next_event_boundary-long (b ∷ c) i l e in
    let shorter = length-drop (i + l) (b ∷ c) in
    loop-turn fuel (waiting t []) b c
      (go_on (waiting t []) (drop (i + l) (b ∷ c)) (event_before i (b ∷ c)))
      (turn-some t (b ∷ c) i l e le)
    ∙ (ap (λ p. prepend_payload p (chunk_loop fuel (waiting t []) (drop (i + l) (b ∷ c))))
          (nothing_before i (b ∷ c))
        ∙ ap (prepend_payload (process_event (take i (b ∷ c))))
            (loop-Framed fuel t (drop (i + l) (b ∷ c)) ps r (omega (arith, long, shorter, h)) f))

minus_zero : (i : ℕ) → i ≡ i - 0
minus_zero i = omega arith

minus_suc : (i n : ℕ) → i - n ≡ suc i - suc n
minus_suc i n = omega arith

take_within : (p c : Bytes) (i : ℕ) → i ≤ length p → take i (p ++ c) ≡ take i p
take_within p c zero h = refl
take_within [] c (suc i) h = absurd (omega (arith, h))
take_within (b ∷ p) c (suc i) h = ap (λ x. b ∷ x) (take_within p c i (omega (arith, h)))

take_beyond : (p c : Bytes) (i : ℕ) → length p ≤ i → take i (p ++ c) ≡ p ++ take (i - length p) c
take_beyond [] c i h = ap (λ n. take n c) (minus_zero i)
take_beyond (b ∷ p) c zero h = absurd (omega (arith, h))
take_beyond (b ∷ p) c (suc i) h =
    ap (λ x. b ∷ x)
      (take_beyond p c i (omega (arith, h)) ∙ ap (λ n. p ++ take n c) (minus_suc i (length p)))

drop_beyond : (p c : Bytes) (i : ℕ) → length p ≤ i → drop i (p ++ c) ≡ drop (i - length p) c
drop_beyond [] c i h = ap (λ n. drop n c) (minus_zero i)
drop_beyond (b ∷ p) c zero h = absurd (omega (arith, h))
drop_beyond (b ∷ p) c (suc i) h =
    drop_beyond p c i (omega (arith, h)) ∙ ap (λ n. drop n c) (minus_suc i (length p))

pending-tail :
    (t p c : Bytes)
    → length (p ++ c) ≤ max_pending_event_bytes
    → pending_turn (waiting t p) c none ≡ return_with (waiting t (p ++ c))
unfolding pending_turn
pending-tail t p c h =
    let n = length-append p c in
    let f : ltb max_pending_event_bytes (length c) ≡ false = ground (arith, n, h) in
    let g : ltb (max_pending_event_bytes - length c) (length p) ≡ false = ground (arith, n, h) in
    rw (f, g) refl

pub offset_after : (n i l : ℕ) → n < i + l → data_offset_after_boundary n i l ≡ i + l - n
unfolding data_offset_after_boundary
offset_after n i l h = elim (Bool-cases (leb n i)) [
  | inl e ↦ rw e (ground arith)
  | inr e ↦ let f : leb l (n - i) ≡ false = ground (arith, h) in rw (e, f) (ground (arith, h))
]

-- The turn for a pending event takes the event off the two joined.
pending-event :
    (t p c : Bytes) (i l : ℕ)
    → length p < i + l
    → i ≤ max_pending_event_bytes
    → pending_turn (waiting t p) c (some (i, l))
      ≡ go_on (waiting t []) (drop (i + l) (p ++ c)) (some (take i (p ++ c)))
unfolding pending_turn
pending-event t p c i l h le =
    let f : ltb max_pending_event_bytes i ≡ false = ground (arith, le) in
    let rest = drop_beyond p c (i + l) (omega (arith, h)) in
    elim (Bool-cases (ltb i (length p))) [
      | inl e ↦
          rw (f, e)
            (rw (offset_after (length p) i l h)
              (go_on-same (sym rest) (sym (take_within p c i (ground arith)))))
      | inr e ↦
          let g : ltb (max_pending_event_bytes - (i - length p)) (length p) ≡ false =
            ground (arith, le) in
          let n : i - length p + l ≡ i + l - length p = ground arith in
          rw (f, e, g) (rw n (go_on-same (sym rest) (sym (take_beyond p c i (ground arith)))))
    ]
  where
    go_on-same :
        {x y u v : Bytes}
        → x ≡ y
        → u ≡ v
        → go_on (waiting t []) x (some u) ≡ go_on (waiting t []) y (some v)
    go_on-same {x} {y} {u} {v} a b =
        ap (λ z. go_on (waiting t []) z (some u)) a ∙ ap (λ z. go_on (waiting t []) y (some z)) b

process_chunk-turn :
    (t : Bytes) (b : ℕ) (p c : Bytes) (o : Option (ℕ × ℕ))
    → next_joined_event_boundary (b ∷ p) c ≡ o
    → process_chunk (waiting t (b ∷ p)) c
      ≡ follow
          (λ s' rest. chunk_loop (suc (length c)) s' rest)
          (pending_turn (waiting t (b ∷ p)) c o)
unfolding process_chunk
process_chunk-turn t b p c o h = rw h refl

process_chunk-loop :
    (t c : Bytes) → process_chunk (waiting t []) c ≡ chunk_loop (suc (length c)) (waiting t []) c
unfolding process_chunk
process_chunk-loop t c = refl

pending-Framed :
    (t : Bytes) (b : ℕ) (p c s : Bytes) (payloads : List Bytes) (rest : Bytes)
    → s ≡ (b ∷ p) ++ c
    → next_event_boundary (b ∷ p) ≡ none
    → Framed s payloads rest
    → process_chunk (waiting t (b ∷ p)) c ≡ some (waiting t rest, payloads)
pending-Framed t b p c s payloads rest q n (tail s' e le) =
    let join = next_joined-next_event (b ∷ p) c n ∙ (ap next_event_boundary (sym q) ∙ e) in
    process_chunk-turn t b p c none join
    ∙ (ap (follow (λ s' rest. chunk_loop (suc (length c)) s' rest))
          (pending-tail t (b ∷ p) c (subst (λ x. length x ≤ max_pending_event_bytes) q le))
        ∙ ap (λ x. some (waiting t x, [])) (sym q))
pending-Framed t b p c s payloads rest q n (frame s' i l ps r e le f) =
    let join = next_joined-next_event (b ∷ p) c n ∙ (ap next_event_boundary (sym q) ∙ e) in
    let over = next_joined_beyond (b ∷ p) c i l join in
    let after = drop_beyond (b ∷ p) c (i + l) (omega (arith, over)) in
    let shorter = length-drop (i + l - length (b ∷ p)) c in
    let framed : Framed (drop (i + l) ((b ∷ p) ++ c)) ps r =
      subst (λ x. Framed (drop (i + l) x) ps r) q f in
    let few : length (drop (i + l) ((b ∷ p) ++ c)) < suc (length c) =
      subst (λ x. length x < suc (length c)) (sym after) (omega (arith, shorter)) in
    process_chunk-turn t b p c (some (i, l)) join
    ∙ (ap (follow (λ s' rest. chunk_loop (suc (length c)) s' rest))
          (pending-event t (b ∷ p) c i l over le)
        ∙ (ap (prepend_payload (process_event (take i ((b ∷ p) ++ c))))
              (loop-Framed (suc (length c)) t (drop (i + l) ((b ∷ p) ++ c)) ps r few framed)
            ∙ ap (λ x. some (waiting t r, with_payload (process_event (take i x)) ps)) (sym q)))

-- A chunk gives the payloads of the events that end in what is pending and the chunk joined, in
-- order, wherever the boundaries lie, and the bytes after the last boundary stay pending. Conditions:
-- no event is being discarded, what is pending has no boundary, and neither an event nor the rest is
-- longer than 256 KiB.
pub process_chunk-Framed :
    (discard_tail pending chunk : Bytes) (payloads : List Bytes) (rest : Bytes)
    (no_boundary : next_event_boundary pending ≡ none)
    (framed : Framed (pending ++ chunk) payloads rest)
    → process_chunk (waiting discard_tail pending) chunk
      ≡ some (waiting discard_tail rest, payloads)
process_chunk-Framed t [] c payloads rest n f =
    process_chunk-loop t c ∙ loop-Framed (suc (length c)) t c payloads rest (omega arith) f
process_chunk-Framed t (b ∷ p) c payloads rest n f =
    pending-Framed t b p c ((b ∷ p) ++ c) payloads rest refl n f
