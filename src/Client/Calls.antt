-- ===== src/Client/Calls.antt =====
-- internal/llmclient/client.go: the entry points DoRaw, DoStream and DoPassthrough. Each begins a
-- scope, makes its attempts without touching the breaker, and ends the scope. `Ending` is the call
-- that ends it, so that other requests can run in between. The decoding of an error body is a
-- parameter.
pub mod Attempts
pub mod Probes
pub mod Ends
use thinroute.Prelude.{
  ℕ, zero, suc, ◌+◌, Bool, true, false, not, ◌||◌, [], ◌∷◌, take, ◌==◌, if◌then◌else◌,
}
use thinroute.Clock.{Time}
use thinroute.Text.{Text, codes}
use thinroute.Errors.{
  Bytes, ProviderErrorDetails, parse_provider_error, Err, is_nil, gateway, new_provider_error,
}
use thinroute.Client.{
  Client, RequestScope, Begun, begun, refused, begin_request, finish_request, complete_scope,
  finish_request_without_breaker, is_retryable, max_attempts, extract_status_code,
  is_local_request_build_error, is_client_timeout_gateway_error,
}
use thinroute.Client.Request.{
  Request, Response, Upstream, Answer, answer, failed, do_http_request, do_request,
  can_retry_passthrough, max_error_body_bytes,
}

-- completeScope, finishRequestWithoutBreaker or finishRequest alone, with their arguments.
pub data Ending : Type 0 where
  complete : ℕ → Err → Err → Ending
  without_breaker : ℕ → Err → Ending
  finish : ℕ → Err → Ending

unfoldable pub end_scope : RequestScope → Ending → Time → Client → Client
end_scope scope (complete status err cb_err) now c = complete_scope scope status err cb_err now c
end_scope scope (without_breaker status err) now c =
    finish_request_without_breaker scope status err c
end_scope scope (finish status err) now c = finish_request status err c

-- The variables lastErr, lastStatusCode and lastErrFromTransport of DoRaw.
pub record Last : Type 0 where
  pub err : Err
  pub status_code : ℕ
  pub from_transport : Bool

abbrev pub retries_error : Text → Err
retries_error provider =
    gateway (new_provider_error provider 502 (codes "request failed after retries")) ∷ []

-- The variables of DoRaw that its loop reads and does not change.
pub record Call : Type 0 where
  pub provider : Text
  pub upstream : Upstream
  pub request : Request
  pub scope : RequestScope

-- waitForRetry: there is no wait before the first attempt.
abbrev pub wait_at : Call → ℕ → Err
wait_at k attempt = if attempt == 0 then [] else k.upstream.wait attempt

abbrev pub Outcome : Type 0
Outcome = Answer Response × Ending

-- waitForRetryAttempt, then `go`.
abbrev after_wait : Err → Outcome → Outcome
after_wait err go = if is_nil err then go else (failed err, finish 0 err)

-- What DoStream reads of an error body when the reading fails.
abbrev read_failed : Bytes
read_failed = codes "failed to read error response"

module _ (string_of : Bytes → Text) (parse : Bytes → ProviderErrorDetails) where
  abbrev pub parsed_error : Text → Response → Err
  parsed_error provider r =
      gateway (parse_provider_error string_of parse provider r.status_code r.body) ∷ []

  -- What DoRaw does once the loop has ended.
  abbrev pub exhausted : Call → Last → Outcome
  exhausted k last =
      if not (is_nil last.err)
      then (
        failed last.err,
        complete last.status_code last.err (if last.from_transport then last.err else []),
      )
      else (
        failed (retries_error k.provider),
        complete 502 (retries_error k.provider) (retries_error k.provider),
      )

  -- The rest of the loop's body, after doRequest; `next` goes on with the loop.
  unfoldable pub raw_answer : Call → Answer Response → (Last → Outcome) → Outcome
  raw_answer k (failed err) next =
      let last : Last = record {
        err = err;
        status_code = extract_status_code err;
        from_transport = true;
      } in
      if is_local_request_build_error err
      then (failed err, without_breaker last.status_code err)
      else if k.scope.half_open_probe || is_client_timeout_gateway_error err
      then (failed err, complete last.status_code err err)
      else next last
  raw_answer k (answer r) next =
      let err = parsed_error k.provider r in
      let last : Last = record { err = err; status_code = r.status_code; from_transport = false } in
      if is_retryable r.status_code
      then (if k.scope.half_open_probe
          then (failed err, complete r.status_code err [])
          else next last)
      else if not (r.status_code == 200)
      then (failed err, complete r.status_code err [])
      else (answer r, complete r.status_code [] [])

  -- The loop of DoRaw from the given attempt, with so many attempts left.
  unfoldable pub raw_loop : Call → (left attempt : ℕ) → Last → Outcome
  unfolding raw_answer
  raw_loop k zero attempt last = exhausted k last
  raw_loop k (suc left) attempt last =
      let go =
        raw_answer k (do_request k.provider k.upstream k.request attempt)
          (raw_loop k left (attempt + 1)) in
      after_wait (wait_at k attempt) go

  abbrev pub raw_attempts : Client → Request → ℕ
  raw_attempts c req = if req.raw_body_reader then 1 else max_attempts c

  -- DoRaw, begun at `now` and ended at `later`, with no other request in between.
  raw_begun : Upstream → Request → Time → Begun × Client → Answer Response × Client
  unfolding raw_loop
  raw_begun up req later (refused err, c) = (failed err, c)
  raw_begun up req later (begun scope, c) =
      let k : Call = record {
        provider = c.provider_name;
        upstream = up;
        request = req;
        scope = scope;
      } in
      let (res, ending) =
        raw_loop k (raw_attempts c req) 0
          (record { err = []; status_code = 0; from_transport = false }) in
      (res, end_scope scope ending later c)

  unfoldable pub do_raw : Upstream → Request → Time → Time → Client → Answer Response × Client
  unfolding raw_begun
  do_raw up req now later c = raw_begun up req later (begin_request now c)

  -- The rest of DoStream's body, after doHTTPRequest.
  unfoldable pub stream_answer : Text → Answer (Response × Err) → Outcome
  stream_answer provider (failed err) =
      if is_local_request_build_error err
      then (failed err, without_breaker (extract_status_code err) err)
      else (failed err, complete (extract_status_code err) err err)
  stream_answer provider (answer (r, read)) =
      if not (r.status_code == 200)
      then (let body = if is_nil read then take max_error_body_bytes r.body else read_failed in
          let err = parsed_error provider (record r { body = body }) in
          (failed err, complete r.status_code err []))
      else (answer r, complete r.status_code [] [])

  stream_begun : Upstream → Request → Time → Begun × Client → Answer Response × Client
  unfolding stream_answer
  stream_begun up req later (refused err, c) = (failed err, c)
  stream_begun up req later (begun scope, c) =
      let (res, ending) =
        stream_answer c.provider_name (do_http_request c.provider_name up req 0) in
      (res, end_scope scope ending later c)

  -- DoStream, up to the start of the stream.
  unfoldable pub do_stream : Upstream → Request → Time → Time → Client → Answer Response × Client
  unfolding stream_begun
  do_stream up req now later c = stream_begun up req later (begin_request now c)

-- The rest of the loop's body of DoPassthrough; `final` is attempt == maxAttempts-1.
passthrough_answer : Call → Bool → Answer (Response × Err) → Outcome → Outcome
passthrough_answer k final (failed err) next =
    if is_local_request_build_error err
    then (failed err, without_breaker (extract_status_code err) err)
    else if k.scope.half_open_probe || is_client_timeout_gateway_error err || final
    then (failed err, complete (extract_status_code err) err err)
    else next
passthrough_answer k final (answer (r, _)) next =
    if is_retryable r.status_code
    then (if k.scope.half_open_probe || final
        then (answer r, complete r.status_code [] [])
        else next)
    else (answer r, complete r.status_code [] [])

-- The loop of DoPassthrough, with so many attempts left.
unfoldable pub passthrough_loop : Call → (left attempt : ℕ) → Outcome
unfolding passthrough_answer
passthrough_loop k zero attempt = (
  failed (retries_error k.provider),
  complete 502 (retries_error k.provider) (retries_error k.provider),
)
passthrough_loop k (suc left) attempt =
    let rest = passthrough_loop k left (attempt + 1) in
    let sent = do_http_request k.provider k.upstream k.request attempt in
    let go = passthrough_answer k (left == 0) sent rest in after_wait (wait_at k attempt) go

abbrev pub passthrough_attempts : Client → Request → ℕ
passthrough_attempts c req = if can_retry_passthrough req then max_attempts c else 1

passthrough_begun : Upstream → Request → Time → Begun × Client → Answer Response × Client
unfolding passthrough_loop
passthrough_begun up req later (refused err, c) = (failed err, c)
passthrough_begun up req later (begun scope, c) =
    let k : Call = record {
      provider = c.provider_name;
      upstream = up;
      request = req;
      scope = scope;
    } in
    let (res, ending) = passthrough_loop k (passthrough_attempts c req) 0 in
    (res, end_scope scope ending later c)

-- DoPassthrough: a response is handed on whatever its status code.
unfoldable pub do_passthrough : Upstream → Request → Time → Time → Client → Answer Response × Client
unfolding passthrough_begun
do_passthrough up req now later c = passthrough_begun up req later (begin_request now c)
