-- ===== src/Client/Calls/Ends.antt =====
-- What a whole call of DoRaw, DoStream or DoPassthrough does: the events that its hooks see, the
-- response that it gives, and the breaker that a probe leaves behind.
use thinroute.Errors.{Bytes, is_nil}
use thinroute.Prelude.{
  ℕ, ◌≡◌, arith, ◌∙◌, ◌++◌, false, none, ◌∷◌, [], refl, ◌<◌, ap, suc, ◌+◌, if◌then◌else◌,
}
use thinroute.Client.{
  extract_status_code, Client, Event, request_start, request_end, Begun, begun, refused,
  RequestScope, emit, finish_request, begin_request, begin_with, admit, Err, complete_scope, true,
  Option, breaker_state, finish_request_without_breaker, String, record_circuit_breaker_completion,
  release_half_open_probe, CircuitBreaker, Bool, Text, some, open_error, acquire,
}
use thinroute.Clock.{Time}
use thinroute.Client.Calls.{
  Ending, complete, without_breaker, finish, end_scope, ProviderErrorDetails, raw_begun,
  stream_begun, passthrough_begun, do_raw, Upstream, do_stream, Request, do_passthrough, Call, Last,
  raw_loop, raw_attempts, wait_at, exhausted, Outcome, parsed_error,
}
use thinroute.Client.Request.{
  Response, Answer, Sent, answer, failed, replied, not_sent, sent_answer, read_body, build_request,
  do_request, do_http_request,
}
use thinroute.Client.Calls.Attempts.{
  AllTransient, sent, last_of, last_after-last, raw_loop-success, raw_loop-exhausted,
}
use mathlib.Core.List.{append_assoc, []}

-- The end of one request has been reported, once.
record Reported (c : Client) (c' : Client) : Type 0 where
  status : ℕ
  err : Err
  state : Option String
  events : c'.events ≡ c.events ++ request_end status err state ∷ []

finish_request-Reported :
    (status : ℕ) (err : Err) (c d : Client)
    → d.on_request_end ≡ true
    → d.events ≡ c.events
    → Reported c (finish_request status err d)
unfolding finish_request
finish_request-Reported status err c d h e = record {
  status = status;
  err = err;
  state = breaker_state d.circuit_breaker;
  events = rw (h, e) refl;
}

end_scope-Reported :
    (scope : RequestScope) (ending : Ending) (now : Time) (c : Client)
    → c.on_request_end ≡ true
    → Reported c (end_scope scope ending now c)
unfolding end_scope complete_scope finish_request_without_breaker record_circuit_breaker_completion
    release_half_open_probe
end_scope-Reported scope (complete status err cb_err) now c h =
    finish_request-Reported status err c
      (record_circuit_breaker_completion scope status cb_err now c) h refl
end_scope-Reported scope (without_breaker status err) now c h =
    finish_request-Reported status err c (release_half_open_probe scope c) (ground arith)
      (ground arith)
end_scope-Reported scope (finish status err) now c h = finish_request-Reported status err c c h refl

-- beginRequest reports the start, and the end too if it refuses.
abbrev Began : Client → Begun × Client → Type 0
Began c (begun scope, c') =
    (c'.events ≡ c.events ++ request_start ∷ []) × (c'.on_request_end ≡ true)
Began c (refused e, c') =
    (s : ℕ) × (e : Err) × (st : Option String) × (c'.events
      ≡ c.events ++ request_start ∷ request_end s e st ∷ [])

-- The client after the hook for the start of a request.
abbrev started : Client → Client
started c = record c { events = c.events ++ request_start ∷ [] }

refused-Began :
    (c d : Client) (e : Err)
    → d.on_request_end ≡ true
    → d.events ≡ (started c).events
    → Began c (refused e, finish_request 503 e d)
unfolding finish_request
refused-Began c d e h s = (
  503,
  e,
  breaker_state d.circuit_breaker,
  rw (h, s) (append_assoc c.events (request_start ∷ []) _),
)

admit-Began :
    (c : Client) (a : CircuitBreaker × Bool × Bool)
    → c.on_request_end ≡ true
    → Began c (admit (started c) a)
admit-Began c (cb, true, probe) h = (refl, h)
admit-Began c (cb, false, probe) h =
    refused-Began c (record (started c) { circuit_breaker = some cb }) (open_error c.provider_name)
      h refl

begin_with-Began :
    (b : Option CircuitBreaker) (now : Time) (c : Client)
    → c.on_request_end ≡ true
    → Began c (begin_with b now (started c))
begin_with-Began none now c h = (refl, h)
begin_with-Began (some cb) now c h = admit-Began c (acquire cb now) h

emit_on :
    (b : Bool) (e : Event) (c : Client)
    → b ≡ true
    → emit b e c ≡ record c { events = c.events ++ e ∷ [] }
emit_on b e c h = rw h

begin_request-Began :
    (now : Time) (c : Client)
    → c.on_request_start ≡ true
    → c.on_request_end ≡ true
    → Began c (begin_request now c)
unfolding begin_request
begin_request-Began now c h k =
    rw (emit_on c.on_request_start request_start c h) (begin_with-Began c.circuit_breaker now c k)

-- One start and one end have been reported, in this order.
abbrev pub Observed : Client → Client → Type 0
Observed c c' =
    (s : ℕ) × (e : Err) × (st : Option String) × (c'.events
      ≡ c.events ++ request_start ∷ request_end s e st ∷ [])

Reported-Observed :
    (c d d' : Client) → d.events ≡ (started c).events → Reported d d' → Observed c d'
Reported-Observed c d d' e r =
    (r.status, r.err, r.state, r.events ∙ rw e (append_assoc c.events (request_start ∷ []) _))

module _ (string_of : Bytes → Text) (parse : Bytes → ProviderErrorDetails) where
  raw_begun-Observed :
      (c : Client) (up : Upstream) (req : Request) (later : Time) (b : Begun × Client)
      → Began c b
      → Observed c (raw_begun string_of parse up req later b).1
  unfolding raw_begun
  raw_begun-Observed c up req later (refused e, c') began = began
  raw_begun-Observed c up req later (begun scope, c') (e, h) =
      Reported-Observed c c' _ e (end_scope-Reported scope _ later c' h)

  stream_begun-Observed :
      (c : Client) (up : Upstream) (req : Request) (later : Time) (b : Begun × Client)
      → Began c b
      → Observed c (stream_begun string_of parse up req later b).1
  unfolding stream_begun
  stream_begun-Observed c up req later (refused e, c') began = began
  stream_begun-Observed c up req later (begun scope, c') (e, h) =
      Reported-Observed c c' _ e (end_scope-Reported scope _ later c' h)

  passthrough_begun-Observed :
      (c : Client) (up : Upstream) (req : Request) (later : Time) (b : Begun × Client)
      → Began c b
      → Observed c (passthrough_begun up req later b).1
  unfolding passthrough_begun
  passthrough_begun-Observed c up req later (refused e, c') began = began
  passthrough_begun-Observed c up req later (begun scope, c') (e, h) =
      Reported-Observed c c' _ e (end_scope-Reported scope _ later c' h)

  -- With both hooks set, a call of DoRaw, of DoStream or of DoPassthrough is observed as one start
  -- followed by one end, however many attempts it makes and however it ends, a refusal by the
  -- breaker included.
  pub calls-Observed :
      (up : Upstream) (req : Request) (now later : Time) (c : Client)
      → c.on_request_start ≡ true
      → c.on_request_end ≡ true
      → Observed c (do_raw string_of parse up req now later c).1
        × Observed c (do_stream string_of parse up req now later c).1
        × Observed c (do_passthrough up req now later c).1
  unfolding do_raw do_stream do_passthrough
  calls-Observed up req now later c h k =
      let began = begin_request-Began now c h k in
      (
        raw_begun-Observed c up req later _ began,
        stream_begun-Observed c up req later _ began,
        passthrough_begun-Observed c up req later _ began,
      )

-- The error of a failed attempt is one.
abbrev IsError : {A : Type 0} → Answer A → Type 0
IsError (failed err) = is_nil err ≡ false
IsError (answer a) = Unit

build_request-IsError :
    (provider : Text) (err : Err) (s : Sent)
    → IsError (if is_nil err then sent_answer provider s else failed err)
build_request-IsError provider [] (replied r read) = tt
build_request-IsError provider [] (not_sent err) = refl
build_request-IsError provider (e ∷ err) s = refl

read_body-IsError :
    (provider : Text) (a : Answer (Response × Err)) → IsError a → IsError (read_body provider a)
read_body-IsError provider (failed err) h = h
read_body-IsError provider (answer (r, [])) h = tt
read_body-IsError provider (answer (r, e ∷ read)) h = refl

do_request-IsError :
    (provider : Text) (up : Upstream) (req : Request) (n : ℕ)
    → IsError (do_request provider up req n)
unfolding do_request do_http_request
do_request-IsError provider up req n =
    read_body-IsError provider (do_http_request provider up req n)
      (build_request-IsError provider (build_request up req) (up.send n))

zero_add : (n : ℕ) → 0 + n ≡ n
zero_add n = omega arith

-- The loop of DoRaw, as DoRaw calls it after a beginning that is let through.
module _ (string_of : Bytes → Text) (parse : Bytes → ProviderErrorDetails) (up : Upstream)
    (req : Request) (now later : Time) (c c' : Client) (scope : RequestScope)
    (let_through : begin_request now c ≡ (begun scope, c')) where
  abbrev pub call : Call
  call = record { provider = c'.provider_name; upstream = up; request = req; scope = scope }

  abbrev pub initial : Last
  initial = record { err = []; status_code = 0; from_transport = false }

  do_raw-loop : do_raw string_of parse up req now later c ≡ (
      let o = raw_loop string_of parse call (raw_attempts string_of parse c' req) 0 initial in
      (o.0, end_scope scope o.1 later c'))
  unfolding do_raw raw_begun
  do_raw-loop = ap (raw_begun string_of parse up req later) let_through

  -- A request that is let through and is no probe, whose first n attempts are answered by 429, 502,
  -- 503, 504 or by an error of the transport that is no timeout of the client, with no wait cut
  -- short, and whose next attempt, still within the number of attempts, is answered by a 200: DoRaw
  -- gives that response and ends the scope with a 200 and no error.
  pub do_raw-success :
      (n : ℕ) (r : Response)
      → scope.half_open_probe ≡ false
      → n < raw_attempts string_of parse c' req
      → AllTransient string_of parse call 0 n
      → wait_at call n ≡ []
      → sent string_of parse call n ≡ answer r
      → r.status_code ≡ 200
      → do_raw string_of parse up req now later c
        ≡ (answer r, end_scope scope (complete r.status_code [] []) later c')
  do_raw-success n r p below h w e ok =
      do_raw-loop
      ∙ ap (λ (o : Outcome). (o.0, end_scope scope o.1 later c'))
          (raw_loop-success string_of parse call n (raw_attempts string_of parse c' req) initial r p
            below h w e ok)

  -- What DoRaw ends with after a last attempt that is transient: an error of the transport is told
  -- to the breaker, an answer of the provider is not, but for its status code.
  abbrev pub failed_as : Answer Response → Outcome
  failed_as (failed err) = (failed err, complete (extract_status_code err) err err)
  failed_as (answer r) = (
    failed (parsed_error string_of parse c'.provider_name r),
    complete r.status_code (parsed_error string_of parse c'.provider_name r) [],
  )

  exhausted-failed_as :
      (a : Answer Response)
      → IsError a
      → exhausted string_of parse call (last_of string_of parse call a) ≡ failed_as a
  exhausted-failed_as (failed err) h = rw h refl
  exhausted-failed_as (answer r) h = refl

  -- A request that is let through and is no probe, all of whose attempts (n + 1 of them) are
  -- answered by 429, 502, 503, 504 or by an error of the transport that is no timeout of the client,
  -- with no wait cut short: DoRaw fails as its last attempt did. Where that was an error of the
  -- transport, it fails with it, ends the scope with its status code and tells the breaker of it;
  -- where it was an answer, it fails with the error parsed from it and ends the scope with its status
  -- code and that error, and the breaker is told of no error.
  pub do_raw-exhausted :
      (n : ℕ)
      → scope.half_open_probe ≡ false
      → raw_attempts string_of parse c' req ≡ suc n
      → AllTransient string_of parse call 0 (suc n)
      → do_raw string_of parse up req now later c
        ≡ (let o = failed_as (sent string_of parse call n) in (o.0, end_scope scope o.1 later c'))
  do_raw-exhausted n p total h =
      let ended : raw_loop string_of parse call (suc n) 0 initial
          ≡ failed_as (sent string_of parse call n) =
        raw_loop-exhausted string_of parse call (suc n) initial p h
        ∙ (ap (exhausted string_of parse call) (last_after-last string_of parse call n 0 initial)
            ∙ rw (zero_add n) (
                exhausted-failed_as (sent string_of parse call n)
                  (do_request-IsError c'.provider_name up req n))) in
      do_raw-loop ∙ ap (λ (o : Outcome). (o.0, end_scope scope o.1 later c')) (rw total ended)
