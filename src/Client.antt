-- ===== src/Client.antt =====
-- internal/llmclient/client.go: the base HTTP client of a provider, with its circuit breaker and
-- its observability hooks. A method takes the client's state and returns the new one; the calls of
-- the hooks are recorded as a list of events. The children model a single HTTP request and the
-- retrying entry points. The backoff's length (floats, a random jitter) is not modelled: what a
-- wait ends with is an input.
pub mod Request
pub mod Calls
pub mod Settles
pub mod Slot
mod Tests
use thinroute.Prelude.{
  ℕ, ◌+◌, String, Bool, true, false, ◌||◌, List, [], ◌∷◌, ◌++◌, Option, none, some, any, leb, ◌==◌,
  if◌then◌else◌, not, ℤ, pos, ◌+ℤ◌, ltb_ℤ, pos_part,
}
use thinroute.Clock.{Time}
use thinroute.Text.{Text, codes, to_lower, contains, is_empty}
use thinroute.Errors.{
  ErrorType, provider_error, rate_limit_error, invalid_request_error, authentication_error,
  not_found_error, GatewayError, gateway, canceled, deadline_exceeded, net_error, other, Err,
  is_nil, as_gateway, gateway_cause, is_canceled_link, is_deadline_link, new_provider_error,
}
use thinroute.Breaker.{
  CircuitBreaker, acquire, release_probe, is_half_open, record_success, record_failure, state_name,
}

-- A call of a hook. The end of a request has its status code, its error and the name of the
-- circuit state, if there is a breaker; the rest of RequestInfo and ResponseInfo is left out.
pub data Event : Type 0 where
  request_start : Event
  request_end : ℕ → Err → Option String → Event

-- The settings and the state that the calls read; a hook that is nil is `false`.
pub record Client : Type 0 where
  pub provider_name : Text
  pub max_retries : ℤ
  pub on_request_start : Bool
  pub on_request_end : Bool
  pub circuit_breaker : Option CircuitBreaker
  pub events : List Event

pub record RequestScope : Type 0 where
  pub half_open_probe : Bool

abbrev breaker_state : Option CircuitBreaker → Option String
breaker_state none = none
breaker_state (some cb) = some (state_name cb)

abbrev pub emit : Bool → Event → Client → Client
emit true e c = record c { events = c.events ++ e ∷ [] }
emit false e c = c

-- finishRequest
unfoldable pub finish_request : ℕ → Err → Client → Client
finish_request status err c =
    emit c.on_request_end (request_end status err (breaker_state c.circuit_breaker)) c

abbrev pub open_error : Text → Err
open_error provider =
    gateway (
      new_provider_error provider 503
        (codes "circuit breaker is open - provider temporarily unavailable"))
    ∷ []

-- The scope, or the error of a request that the breaker turns away.
pub data Begun : Type 0 where
  begun : RequestScope → Begun
  refused : Err → Begun

-- What beginRequest makes of the breaker's answers.
abbrev admit : Client → CircuitBreaker × Bool × Bool → Begun × Client
admit c (cb, allowed, probe) =
    let c' = record c { circuit_breaker = some cb } in
    let e = open_error c.provider_name in
    if allowed
    then (begun (record { half_open_probe = probe }), c')
    else (refused e, finish_request 503 e c')

abbrev begin_with : Option CircuitBreaker → Time → Client → Begun × Client
begin_with none now c = (begun (record { half_open_probe = false }), c)
begin_with (some cb) now c = admit c (acquire cb now)

unfoldable pub begin_request : Time → Client → Begun × Client
unfolding finish_request
begin_request now c =
    let c' = emit c.on_request_start request_start c in begin_with c'.circuit_breaker now c'

abbrev on_breaker :
    (CircuitBreaker → CircuitBreaker) → Option CircuitBreaker → Option CircuitBreaker
on_breaker f none = none
on_breaker f (some cb) = some (f cb)

-- releaseHalfOpenProbe
unfoldable pub release_half_open_probe : RequestScope → Client → Client
release_half_open_probe scope c =
    if scope.half_open_probe
    then record c { circuit_breaker = on_breaker release_probe c.circuit_breaker }
    else c

-- isRetryable
unfoldable pub is_retryable : ℕ → Bool
is_retryable status = status == 429 || status == 503 || status == 502 || status == 504

unfoldable pub should_trip_circuit_breaker : ℕ → Bool
unfolding is_retryable
should_trip_circuit_breaker status =
    if status == 429 then false else is_retryable status || leb 500 status

-- recordCircuitBreakerCompletion, for a breaker that is there.
unfoldable pub completed : RequestScope → ℕ → Err → Time → CircuitBreaker → CircuitBreaker
completed scope status err now cb =
    if not (is_nil err)
    then (if any is_canceled_link err
        then (if scope.half_open_probe then release_probe cb else cb)
        else record_failure cb now)
    else if status == 429
    then (if is_half_open cb then record_failure cb now else cb)
    else if should_trip_circuit_breaker status
    then record_failure cb now
    else record_success cb

unfoldable pub record_circuit_breaker_completion : RequestScope → ℕ → Err → Time → Client → Client
unfolding completed should_trip_circuit_breaker
record_circuit_breaker_completion scope status err now c = record c {
  circuit_breaker = on_breaker (completed scope status err now) c.circuit_breaker;
}

-- completeScope
unfoldable pub complete_scope : RequestScope → ℕ → Err → Err → Time → Client → Client
complete_scope scope status err cb_err now c =
    finish_request status err (record_circuit_breaker_completion scope status cb_err now c)

-- finishRequestWithoutBreaker
unfoldable pub finish_request_without_breaker : RequestScope → ℕ → Err → Client → Client
finish_request_without_breaker scope status err c =
    finish_request status err (release_half_open_probe scope c)

unfoldable pub max_attempts : Client → ℕ
max_attempts c = let m = c.max_retries +ℤ pos 1 in if ltb_ℤ m (pos 1) then 1 else pos_part m

abbrev type_name : ErrorType → Text
type_name provider_error = codes "provider_error"
type_name rate_limit_error = codes "rate_limit_error"
type_name invalid_request_error = codes "invalid_request_error"
type_name authentication_error = codes "authentication_error"
type_name not_found_error = codes "not_found_error"

-- The method Error of a GatewayError.
gateway_text : GatewayError → Text
gateway_text g =
    let body = type_name g.type ++ (codes ": " ++ g.message) in
    if is_empty g.provider then body else codes "[" ++ (g.provider ++ (codes "] " ++ body))

-- err.Error()
unfoldable pub error_text : Err → Text
unfolding gateway_text
error_text [] = []
error_text (gateway g ∷ _) = gateway_text g
error_text (canceled ∷ _) = codes "context canceled"
error_text (deadline_exceeded ∷ _) = codes "context deadline exceeded"
error_text (net_error _ m ∷ _) = m
error_text (other m ∷ _) = m

-- errors.As(err, &netErr) && netErr.Timeout()
abbrev net_timeout : Err → Bool
net_timeout [] = false
net_timeout (net_error t _ ∷ _) = t
net_timeout (deadline_exceeded ∷ _) = true
net_timeout (gateway _ ∷ e) = net_timeout e
net_timeout (canceled ∷ e) = net_timeout e
net_timeout (other _ ∷ e) = net_timeout e

unfoldable pub is_timeout_error : Err → Bool
unfolding error_text to_lower contains
is_timeout_error err =
    if is_nil err
    then false
    else if any is_deadline_link err
    then true
    else if net_timeout err
    then true
    else (let message = to_lower (error_text err) in
        contains message (codes "client.timeout exceeded")
        || contains message (codes "timeout awaiting response headers"))

unfoldable pub provider_error_status_code : Err → ℕ
unfolding is_timeout_error
provider_error_status_code err = if is_timeout_error err then 504 else 502

abbrev status_of : Option GatewayError → ℕ
status_of none = 0
status_of (some g) = g.status_code

unfoldable pub extract_status_code : Err → ℕ
unfolding as_gateway
extract_status_code err = status_of (as_gateway err)

abbrev is_invalid_request : Option GatewayError → Bool
is_invalid_request (some g) = is_invalid g.type
  where
    is_invalid : ErrorType → Bool
    is_invalid invalid_request_error = true
    is_invalid _ = false
is_invalid_request none = false

unfoldable pub is_local_request_build_error : Err → Bool
unfolding as_gateway
is_local_request_build_error err = is_invalid_request (as_gateway err)

abbrev client_timeout : Err → Option GatewayError → Bool
client_timeout err none = is_timeout_error err
client_timeout err (some g) =
    if g.status_code == 504
    then is_timeout_error (gateway_cause err) || is_timeout_error (gateway g ∷ gateway_cause err)
    else false

unfoldable pub is_client_timeout_gateway_error : Err → Bool
unfolding as_gateway gateway_cause is_timeout_error
is_client_timeout_gateway_error err = client_timeout err (as_gateway err)
