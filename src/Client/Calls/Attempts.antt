-- ===== src/Client/Calls/Attempts.antt =====
-- How often DoRaw tries, and which attempt's answer it gives.
use thinroute.Prelude.{
  Bool-cases, [], ◌∙◌, ◌-◌, ℕ, zero, suc, ◌+◌, ◌<◌, ◌≡◌, refl, inl, inr, true, false, arith,
}
use thinroute.Client.{
  is_retryable, is_local_request_build_error, is_client_timeout_gateway_error, extract_status_code,
}
use thinroute.Errors.{Bytes, ProviderErrorDetails}
use thinroute.Text.{Text}
use thinroute.Client.Calls.{
  wait_at, Ending, without_breaker, finish, Last, Call, Outcome, exhausted, raw_answer, raw_loop,
  complete, parsed_error,
}
use thinroute.Client.Request.{Response, Answer, answer, failed, do_request}

-- Ends of a scope after which the breaker has heard of the request.
abbrev pub Settling : Ending → Type 0
Settling (complete _ _ _) = Unit
Settling (without_breaker _ _) = Unit
Settling (finish _ _) = ⊥

-- An answer after which DoRaw tries again, if it is not the probe.
abbrev pub Transient : Answer Response → Type 0
Transient (failed err) =
    (is_local_request_build_error err ≡ false) × (is_client_timeout_gateway_error err ≡ false)
Transient (answer r) = is_retryable r.status_code ≡ true

module _ (string_of : Bytes → Text) (parse : Bytes → ProviderErrorDetails) (k : Call) where
  abbrev pub sent : ℕ → Answer Response
  sent n = do_request k.provider k.upstream k.request n

  -- The n attempts from this one on are transient, and no wait before them is cut short.
  abbrev pub AllTransient : ℕ → ℕ → Type 0
  AllTransient attempt zero = Unit
  AllTransient attempt (suc n) =
      (wait_at k attempt ≡ []) × Transient (sent attempt) × AllTransient (attempt + 1) n

  -- lastErr, lastStatusCode and lastErrFromTransport after a transient answer.
  abbrev pub last_of : Answer Response → Last
  last_of (failed err) = record {
    err = err;
    status_code = extract_status_code err;
    from_transport = true;
  }
  last_of (answer r) = record {
    err = parsed_error string_of parse k.provider r;
    status_code = r.status_code;
    from_transport = false;
  }

  raw_answer-Transient :
      (a : Answer Response) (next : Last → Outcome)
      → k.scope.half_open_probe ≡ false
      → Transient a
      → raw_answer string_of parse k a next ≡ next (last_of a)
  unfolding raw_answer
  raw_answer-Transient (failed err) next p (l, t) = rw (l, p, t)
  raw_answer-Transient (answer r) next p t = rw (t, p)

  raw_answer-probe :
      (a : Answer Response) (next next' : Last → Outcome)
      → k.scope.half_open_probe ≡ true
      → (raw_answer string_of parse k a next ≡ raw_answer string_of parse k a next')
        × Settling (raw_answer string_of parse k a next).1
  unfolding raw_answer
  raw_answer-probe (failed err) next next' p =
      elim (Bool-cases (is_local_request_build_error err)) [
        | inl l ↦ rw l (refl, tt)
        | inr l ↦ rw (l, p) (refl, tt)
      ]
  raw_answer-probe (answer r) next next' p = elim (Bool-cases (is_retryable r.status_code)) [
    | inl l ↦ rw (l, p) (refl, tt)
    | inr l ↦ rw l (ground arith)
  ]

  raw_loop_step :
      (left attempt : ℕ) (last : Last)
      → wait_at k attempt ≡ []
      → raw_loop string_of parse k (suc left) attempt last
        ≡ raw_answer string_of parse k
            (sent attempt)
            (raw_loop string_of parse k left (attempt + 1))
  unfolding raw_loop
  raw_loop_step left attempt last w = rw w

  -- The loop's variables after n transient attempts.
  abbrev pub last_after : ℕ → ℕ → Last → Last
  last_after attempt zero last = last
  last_after attempt (suc n) last = last_after (attempt + 1) n (last_of (sent attempt))

  raw_loop-Transient :
      (n total rest attempt : ℕ) (last : Last)
      → k.scope.half_open_probe ≡ false
      → total ≡ n + rest
      → AllTransient attempt n
      → raw_loop string_of parse k total attempt last
        ≡ raw_loop string_of parse k rest (attempt + n) (last_after attempt n last)
  raw_loop-Transient zero total rest attempt last p e h =
      let same : total ≡ rest = omega arith in
      let here : attempt + 0 ≡ attempt = omega arith in rw (same, here)
  raw_loop-Transient (suc n) zero rest attempt last p e h = absurd (omega arith)
  raw_loop-Transient (suc n) (suc total) rest attempt last p e (w, t, h) =
      let shift : attempt + suc n ≡ attempt + 1 + n = omega arith in
      raw_loop_step total attempt last w
      ∙ raw_answer-Transient (sent attempt) (raw_loop string_of parse k total (attempt + 1)) p t
      ∙ rw shift
          (raw_loop-Transient n total rest (attempt + 1) (last_of (sent attempt)) p (omega arith) h)

  -- The last of the transient attempts sets the loop's variables.
  pub last_after-last :
      (n attempt : ℕ) (last : Last) → last_after attempt (suc n) last ≡ last_of (sent (attempt + n))
  last_after-last zero attempt last = let here : attempt + 0 ≡ attempt = omega arith in rw here refl
  last_after-last (suc n) attempt last =
      let shift : attempt + suc n ≡ attempt + 1 + n = omega arith in
      rw shift (last_after-last n (attempt + 1) (last_of (sent attempt)))

  raw_answer_success :
      (r : Response) (next : Last → Outcome)
      → r.status_code ≡ 200
      → raw_answer string_of parse k (answer r) next ≡ (answer r, complete r.status_code [] [])
  unfolding raw_answer is_retryable
  raw_answer_success r next e = rw e

  -- The loop gives the response of the first attempt that is not transient, if that is a 200.
  pub raw_loop-success :
      (n total : ℕ) (last : Last) (r : Response)
      → k.scope.half_open_probe ≡ false
      → n < total
      → AllTransient 0 n
      → wait_at k n ≡ []
      → sent n ≡ answer r
      → r.status_code ≡ 200
      → raw_loop string_of parse k total 0 last ≡ (answer r, complete r.status_code [] [])
  raw_loop-success n total last r p below h w e ok =
      let here : 0 + n ≡ n = omega arith in
      raw_loop-Transient n total (suc (total - n - 1)) 0 last p (omega arith) h
      ∙ rw here (
          raw_loop_step (total - n - 1) n (last_after 0 n last) w
          ∙ rw e (raw_answer_success r (raw_loop string_of parse k (total - n - 1) (n + 1)) ok))

  -- With all attempts transient the loop gives the error of the last one.
  pub raw_loop-exhausted :
      (total : ℕ) (last : Last)
      → k.scope.half_open_probe ≡ false
      → AllTransient 0 total
      → raw_loop string_of parse k total 0 last
        ≡ exhausted string_of parse k (last_after 0 total last)
  unfolding raw_loop
  raw_loop-exhausted total last p h = raw_loop-Transient total total 0 0 last p (omega arith) h

  -- The probe makes one attempt, whatever the number of attempts left, and its scope's end is one
  -- that settles the breaker.
  pub raw_loop-probe :
      (left : ℕ) (last last' : Last)
      → k.scope.half_open_probe ≡ true
      → (raw_loop string_of parse k (suc left) 0 last ≡ raw_loop string_of parse k 1 0 last')
        × Settling (raw_loop string_of parse k (suc left) 0 last).1
  unfolding raw_loop
  raw_loop-probe left last last' p =
      raw_answer-probe (sent 0) (raw_loop string_of parse k left 1) (raw_loop string_of parse k 0 1)
        p
