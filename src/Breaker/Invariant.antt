-- ===== src/Breaker/Invariant.antt =====
-- What holds of the circuit breaker between two calls.
use thinroute.Prelude.{ℕ, ◌≤◌, ◌<◌, ◌≡◌, ◌≢◌, true, arith}
use thinroute.Clock.{Time, Duration}
use thinroute.Breaker.{
  circuit_closed, circuit_open, circuit_half_open, CircuitBreaker, new_circuit_breaker, acquire,
  release_probe, record_success, record_failure,
}

pub record IsValid (cb : CircuitBreaker) : Type 0 where
  pub positive : 0 < cb.failure_threshold
  pub below : cb.state ≡ circuit_closed → cb.failures < cb.failure_threshold
  pub reached_open : cb.state ≡ circuit_open → cb.failure_threshold ≤ cb.failures
  pub reached : cb.state ≡ circuit_half_open → cb.failure_threshold ≤ cb.failures
  pub probing :
      cb.state ≡ circuit_half_open → 0 < cb.success_threshold → cb.successes < cb.success_threshold
  pub slot_free : cb.state ≢ circuit_half_open → cb.half_open_allowed ≡ true

pub new-IsValid : (f s : ℕ) (t : Duration) → 0 < f → IsValid (new_circuit_breaker f s t)
unfolding new_circuit_breaker
new-IsValid f s t h = ground arith

pub acquire-IsValid : (cb : CircuitBreaker) (now : Time) → IsValid cb → IsValid (acquire cb now).0
unfolding acquire
acquire-IsValid cb now v = ground arith

pub release_probe-IsValid : (cb : CircuitBreaker) → IsValid cb → IsValid (release_probe cb)
unfolding release_probe
release_probe-IsValid cb v = ground arith

pub record_success-IsValid : (cb : CircuitBreaker) → IsValid cb → IsValid (record_success cb)
unfolding record_success
record_success-IsValid cb v = ground arith

pub record_failure-IsValid :
    (cb : CircuitBreaker) (now : Time) → IsValid cb → IsValid (record_failure cb now)
unfolding record_failure
record_failure-IsValid cb now v = ground arith
