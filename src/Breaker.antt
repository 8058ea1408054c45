-- ===== src/Breaker.antt =====
-- internal/llmclient/circuit_breaker.go: the circuit breaker of a provider's client. The methods
-- hold the mutex from start to end, so each is one step; the clock's reading is an argument. The
-- counters go up by one for a request and are left unbounded.
pub mod Invariant
pub mod Threshold
mod Tests
use thinroute.Prelude.{ℕ, ◌+◌, String, Bool, true, false, leb, ltb, if◌then◌else◌}
use thinroute.Clock.{Time, Duration, sub_time}

pub data CircuitState : Type 0 where
  circuit_closed circuit_open circuit_half_open : CircuitState

pub record CircuitBreaker : Type 0 where
  pub state : CircuitState
  pub failures : ℕ
  pub successes : ℕ
  pub failure_threshold : ℕ
  pub success_threshold : ℕ
  pub timeout : Duration
  pub last_failure : Time
  pub half_open_allowed : Bool

unfoldable pub new_circuit_breaker : ℕ → ℕ → Duration → CircuitBreaker
new_circuit_breaker failure_threshold success_threshold timeout = record {
  state = circuit_closed;
  failures = 0;
  successes = 0;
  failure_threshold = failure_threshold;
  success_threshold = success_threshold;
  timeout = timeout;
  last_failure = 0;
  half_open_allowed = true;
}

-- The case circuitHalfOpen of acquire, into which the case circuitOpen falls through.
take_slot : CircuitBreaker → CircuitBreaker × Bool × Bool
take_slot cb =
    if cb.half_open_allowed
    then (record cb { half_open_allowed = false }, true, true)
    else (cb, false, false)

acquire_in : CircuitState → CircuitBreaker → Time → CircuitBreaker × Bool × Bool
acquire_in circuit_closed cb now = (cb, true, false)
acquire_in circuit_open cb now =
    if ltb cb.timeout (sub_time now cb.last_failure)
    then take_slot
        (record cb { state = circuit_half_open; successes = 0; half_open_allowed = true })
    else (cb, false, false)
acquire_in circuit_half_open cb now = take_slot cb

-- The answers are whether the request may go on, and whether it is the half-open probe.
unfoldable pub acquire : CircuitBreaker → Time → CircuitBreaker × Bool × Bool
unfolding acquire_in take_slot
acquire cb now = acquire_in cb.state cb now

abbrev pub is_half_open_state : CircuitState → Bool
is_half_open_state circuit_half_open = true
is_half_open_state _ = false

-- IsHalfOpen
unfoldable pub is_half_open : CircuitBreaker → Bool
is_half_open cb = is_half_open_state cb.state

unfoldable pub release_probe : CircuitBreaker → CircuitBreaker
release_probe cb =
    if is_half_open_state cb.state then record cb { half_open_allowed = true } else cb

record_success_in : CircuitState → CircuitBreaker → CircuitBreaker
record_success_in circuit_half_open cb =
    let cb' = record cb { successes = cb.successes + 1; half_open_allowed = true } in
    if leb cb'.success_threshold cb'.successes
    then record cb' { state = circuit_closed; failures = 0 }
    else cb'
record_success_in circuit_closed cb = record cb { failures = 0 }
record_success_in circuit_open cb = cb

unfoldable pub record_success : CircuitBreaker → CircuitBreaker
unfolding record_success_in
record_success cb = record_success_in cb.state cb

record_failure_in : CircuitState → CircuitBreaker → CircuitBreaker
record_failure_in circuit_closed cb =
    if leb cb.failure_threshold cb.failures then record cb { state = circuit_open } else cb
record_failure_in circuit_half_open cb = record cb {
  state = circuit_open;
  successes = 0;
  half_open_allowed = true;
}
record_failure_in circuit_open cb = cb

unfoldable pub record_failure : CircuitBreaker → Time → CircuitBreaker
unfolding record_failure_in
record_failure cb now =
    record_failure_in cb.state (record cb { failures = cb.failures + 1; last_failure = now })

-- State
unfoldable pub state_name : CircuitBreaker → String
state_name cb = name cb.state
  where
    name : CircuitState → String
    name circuit_closed = "closed"
    name circuit_open = "open"
    name circuit_half_open = "half-open"
