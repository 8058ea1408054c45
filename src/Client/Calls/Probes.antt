-- ===== src/Client/Calls/Probes.antt =====
-- How the entry points of internal/llmclient/client.go end a scope, the one of the half-open probe in
-- particular.
use thinroute.Prelude.{
  Bool, Bool-cases, [], arith, false, inl, inr, suc, true, zero, ℕ, ◌<◌, ◌==◌, ◌≡◌,
}
use thinroute.Text.{Text}
use thinroute.Errors.{Bytes, Err, ProviderErrorDetails}
use thinroute.Client.{
  Client, RequestScope, is_local_request_build_error, is_retryable, max_attempts,
}
use thinroute.Client.Request.{
  Answer, Request, Response, Upstream, answer, do_http_request, failed, can_retry_passthrough,
}
use thinroute.Client.Calls.{
  Call, Ending, Last, Outcome, passthrough_answer, passthrough_attempts, passthrough_loop,
  raw_attempts, raw_loop, stream_answer,
}
use thinroute.Client.Calls.Attempts.{Settling, raw_loop-probe}

-- The endings that DoRaw, DoStream and DoPassthrough reach in a scope, for any request and answers.
pub data Ends (scope : RequestScope) (ending : Ending) : Type 0 where
  by_do_raw :
      (string_of : Bytes → Text) (parse : Bytes → ProviderErrorDetails) (c : Client) (k : Call)
      → k.scope ≡ scope
      → ending
        ≡ (raw_loop string_of parse k
            (raw_attempts string_of parse c k.request)
            0
            (record { err = []; status_code = 0; from_transport = false })).1
      → Ends scope ending
  by_do_stream :
      (string_of : Bytes → Text) (parse : Bytes → ProviderErrorDetails) (provider : Text)
      (up : Upstream) (req : Request)
      → ending ≡ (stream_answer string_of parse provider (do_http_request provider up req 0)).1
      → Ends scope ending
  by_do_passthrough :
      (c : Client) (k : Call)
      → k.scope ≡ scope
      → ending ≡ (passthrough_loop k (passthrough_attempts c k.request) 0).1
      → Ends scope ending

max_attempts-positive : (c : Client) → 0 < max_attempts c
unfolding max_attempts
max_attempts-positive c = ground arith

raw_attempts-positive :
    (string_of : Bytes → Text) (parse : Bytes → ProviderErrorDetails) (c : Client) (req : Request)
    → 0 < raw_attempts string_of parse c req
raw_attempts-positive string_of parse c req = elim (Bool-cases req.raw_body_reader) [
  | inl e ↦ rw e (omega arith)
  | inr e ↦ rw e (max_attempts-positive c)
]

passthrough_attempts-positive : (c : Client) (req : Request) → 0 < passthrough_attempts c req
passthrough_attempts-positive c req = elim (Bool-cases (can_retry_passthrough req)) [
  | inl e ↦ rw e (max_attempts-positive c)
  | inr e ↦ rw e (omega arith)
]

raw_loop-Settling :
    (string_of : Bytes → Text) (parse : Bytes → ProviderErrorDetails) (k : Call) (total : ℕ)
    (last : Last)
    → k.scope.half_open_probe ≡ true
    → 0 < total
    → Settling (raw_loop string_of parse k total 0 last).1
raw_loop-Settling string_of parse k zero last p pos = absurd (omega arith)
raw_loop-Settling string_of parse k (suc left) last p pos =
    (raw_loop-probe string_of parse k left last last p).1

stream_answer-Settling :
    (string_of : Bytes → Text) (parse : Bytes → ProviderErrorDetails) (provider : Text)
    (a : Answer (Response × Err))
    → Settling (stream_answer string_of parse provider a).1
unfolding stream_answer
stream_answer-Settling string_of parse provider (failed err) =
    elim (Bool-cases (is_local_request_build_error err)) [ inl l ↦ rw l tt | inr l ↦ rw l tt ]
stream_answer-Settling string_of parse provider (answer (r, read)) =
    elim (Bool-cases (r.status_code == 200)) [ inl l ↦ rw l tt | inr l ↦ rw l tt ]

passthrough_answer-Settling :
    (k : Call) (final : Bool) (a : Answer (Response × Err)) (next : Outcome)
    → k.scope.half_open_probe ≡ true
    → Settling (passthrough_answer k final a next).1
unfolding passthrough_answer
passthrough_answer-Settling k final (failed err) next p =
    elim (Bool-cases (is_local_request_build_error err)) [ inl l ↦ rw l tt | inr l ↦ rw (l, p) tt ]
passthrough_answer-Settling k final (answer (r, read)) next p =
    elim (Bool-cases (is_retryable r.status_code)) [ inl l ↦ rw (l, p) tt | inr l ↦ rw l tt ]

passthrough_loop-Settling :
    (k : Call) (total : ℕ)
    → k.scope.half_open_probe ≡ true
    → 0 < total
    → Settling (passthrough_loop k total 0).1
unfolding passthrough_loop
passthrough_loop-Settling k zero p pos = absurd (omega arith)
passthrough_loop-Settling k (suc left) p pos =
    passthrough_answer-Settling k (left == 0) (do_http_request k.provider k.upstream k.request 0)
      (passthrough_loop k left 1) p

-- The half-open probe never ends without settling the breaker.
pub Ends-Settling :
    (scope : RequestScope) (ending : Ending)
    → scope.half_open_probe ≡ true
    → Ends scope ending
    → Settling ending
Ends-Settling scope ending p (by_do_raw string_of parse c k s e) =
    let probe : k.scope.half_open_probe ≡ true = rw s p in
    rw e (
      raw_loop-Settling string_of parse k (raw_attempts string_of parse c k.request) _ probe
        (raw_attempts-positive string_of parse c k.request))
Ends-Settling scope ending p (by_do_stream string_of parse provider up req e) =
    rw e (stream_answer-Settling string_of parse provider (do_http_request provider up req 0))
Ends-Settling scope ending p (by_do_passthrough c k s e) =
    let probe : k.scope.half_open_probe ≡ true = rw s p in
    rw e (
      passthrough_loop-Settling k (passthrough_attempts c k.request) probe
        (passthrough_attempts-positive c k.request))
