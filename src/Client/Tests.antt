-- ===== src/Client/Tests.antt =====
-- Runs of the client, and its theorems at concrete inputs.
use thinroute.Prelude.{[], arith, false, pos, refl, some, suc, true, zero, ℕ, ◌∷◌, ◌≡◌}
use thinroute.Breaker.{
  new_circuit_breaker, CircuitBreaker, acquire, record_failure, circuit_closed, circuit_half_open,
  circuit_open, record_success, state_name, is_half_open,
}
use thinroute.Client.{
  Client, RequestScope, request_start, completed, request_end, begin_request, complete_scope,
  finish_request_without_breaker, finish_request, record_circuit_breaker_completion,
  release_half_open_probe, max_attempts, should_trip_circuit_breaker, is_retryable,
  is_local_request_build_error, is_client_timeout_gateway_error, extract_status_code,
  provider_error_status_code, begun,
}
use thinroute.Errors.{Bytes, Err, ProviderErrorDetails, parse_provider_error}
use thinroute.Text.{codes, Text}
use thinroute.Client.Calls.{
  do_raw, do_stream, do_passthrough, end_scope, complete, parsed_error, Call, passthrough_loop,
}
use thinroute.Client.Request.{
  Request, Sent, Upstream, replied, answer, failed, do_request, do_http_request,
  can_retry_passthrough,
}
use thinroute.Client.Slot.{Traffic, next, other_scope, here, begins_other, ends_other}
use thinroute.Client.Calls.Probes.{by_do_passthrough}
use thinroute.Client.Calls.Ends.{Observed, calls-Observed, do_raw-success, do_raw-exhausted}
use thinroute.Client.Slot.Safe.{reachable-acquire, completed-second_probe}

program : Unit {0}
unfolding new_circuit_breaker acquire record_failure record_success state_name do_raw do_stream
    do_passthrough begin_request end_scope complete_scope finish_request_without_breaker
    finish_request record_circuit_breaker_completion release_half_open_probe do_request
    do_http_request max_attempts completed should_trip_circuit_breaker is_retryable
    parse_provider_error is_local_request_build_error is_client_timeout_gateway_error
    extract_status_code provider_error_status_code can_retry_passthrough is_half_open
    passthrough_loop
program = tt

abbrev cb : CircuitBreaker
cb = record {
  state = circuit_closed;
  failures = 0;
  successes = 0;
  failure_threshold = 1;
  success_threshold = 2;
  timeout = 10;
  last_failure = 0;
  half_open_allowed = true;
}

abbrev probing : CircuitBreaker
probing = record cb { state = circuit_half_open; failures = 1; half_open_allowed = false }

abbrev client : Client
client = record {
  provider_name = codes "p";
  max_retries = pos 2;
  on_request_start = true;
  on_request_end = true;
  circuit_breaker = some cb;
  events = [];
}

abbrev get : Request
get = record {
  method = codes "GET";
  endpoint = codes "/m";
  body = false;
  raw_body = false;
  raw_body_reader = false;
  headers = [];
}

-- A 503 at the first attempt, and a 200 from then on.
abbrev busy_once : ℕ → Sent
busy_once zero = replied (record { status_code = 503; body = [] }) []
busy_once (suc _) = replied (record { status_code = 200; body = 7 ∷ [] }) []

abbrev up : Upstream
up = record { marshal_error = []; new_request_error = []; send = busy_once; wait = λ _. [] }

abbrev string_of : Bytes → Text
string_of b = b

abbrev parse : Bytes → ProviderErrorDetails
parse b = record { message = []; param = []; code = [] }

retried :
    (do_raw string_of parse up get 1 2 client).0
    ≡ answer (record { status_code = 200; body = 7 ∷ [] })
unfolding program
retried = refl

calls-Observed_example :
    Observed client (do_raw string_of parse up get 1 2 client).1
    × Observed client (do_stream string_of parse up get 1 2 client).1
    × Observed client (do_passthrough up get 1 2 client).1
calls-Observed_example = calls-Observed string_of parse up get 1 2 client refl refl

-- Always a 503.
abbrev down : Upstream
down = record up { send = λ n. replied (record { status_code = 503; body = [] }) [] }

abbrev admitted : Client
admitted = record client { events = request_start ∷ [] }

abbrev plain : RequestScope
plain = record { half_open_probe = false }

let_through : begin_request 1 client ≡ (begun plain, admitted)
unfolding program
let_through = refl

do_raw-success_example : do_raw string_of parse up get 1 2 client ≡ (
  answer (record { status_code = 200; body = 7 ∷ [] }),
  end_scope plain (complete 200 [] []) 2 admitted,
)
unfolding program
do_raw-success_example =
    do_raw-success string_of parse up get 1 2 client admitted plain let_through 1
      (record { status_code = 200; body = 7 ∷ [] }) refl (omega arith) (refl, refl, tt) refl refl
      refl

-- The error that is made of a 503 of an empty body.
abbrev overloaded : Err
overloaded = parsed_error string_of parse (codes "p") (record { status_code = 503; body = [] })

do_raw-exhausted_example :
    do_raw string_of parse down get 1 2 client
    ≡ (failed overloaded, end_scope plain (complete 503 overloaded []) 2 admitted)
unfolding program
do_raw-exhausted_example =
    do_raw-exhausted string_of parse down get 1 2 client admitted plain let_through 2 refl refl
      (refl, refl, (refl, refl, (refl, refl, tt)))

-- A call of DoPassthrough that is no probe and is answered by a 500.
abbrev broken : Call
broken = record {
  provider = codes "p";
  upstream = record up { send = λ n. replied (record { status_code = 500; body = [] }) [] };
  request = get;
  scope = other_scope;
}

-- A request that is admitted at time 1 and ends in a 500 at time 2 opens the breaker.
abbrev tripped : CircuitBreaker
tripped = record cb { state = circuit_open; failures = 1; last_failure = 2 }

abbrev after_failure : Traffic
after_failure = record {
  client = record client {
    circuit_breaker = some tripped;
    events = request_start ∷ request_end 500 [] (some "open") ∷ [];
  };
  probes = 0;
  others = 0;
}

reachable-acquire_example : (acquire tripped 13).1 ≡ true
unfolding program
reachable-acquire_example =
    reachable-acquire client 1 2 10 after_failure tripped 13 (omega arith)
      (next (next here (begins_other 1 admitted refl refl))
        (ends_other 2 (complete 500 [] []) 0 (by_do_passthrough client broken refl refl) refl refl))
      refl refl (omega arith)

completed-second_probe_example :
    let a = acquire (completed other_scope 200 [] 5 probing) 6 in (a.1 ≡ true) × (a.2 ≡ true)
completed-second_probe_example = completed-second_probe probing 5 6 refl refl (omega arith)
