-- ===== src/Client/Settles.antt =====
-- What the end of a request does to the circuit breaker.
use thinroute.Prelude.{ℕ, ◌≡◌, true, false, arith}
use thinroute.Clock.{Time}
use thinroute.Errors.{Err}
use thinroute.Breaker.{
  circuit_half_open, CircuitBreaker, release_probe, is_half_open, record_success, record_failure,
}
use thinroute.Breaker.Invariant.{
  IsValid, release_probe-IsValid, record_success-IsValid, record_failure-IsValid,
}
use thinroute.Client.{RequestScope, completed}

-- The half-open slot is free, or the breaker is not half-open.
abbrev pub SlotFree : CircuitBreaker → Type 0
SlotFree cb = cb.state ≡ circuit_half_open → cb.half_open_allowed ≡ true

pub record_success-SlotFree : (cb : CircuitBreaker) → SlotFree (record_success cb)
unfolding record_success
record_success-SlotFree cb = ground arith

pub record_failure-SlotFree : (cb : CircuitBreaker) (now : Time) → SlotFree (record_failure cb now)
unfolding record_failure
record_failure-SlotFree cb now = ground arith

pub release_probe-SlotFree : (cb : CircuitBreaker) → SlotFree (release_probe cb)
unfolding release_probe
release_probe-SlotFree cb = ground arith

unless_half_open-SlotFree : (cb : CircuitBreaker) → is_half_open cb ≡ false → SlotFree cb
unfolding is_half_open
unless_half_open-SlotFree cb h = ground arith

-- The end of the probe frees the slot, whatever the status code and the error.
pub completed-SlotFree :
    (scope : RequestScope) (status : ℕ) (err : Err) (now : Time) (cb : CircuitBreaker)
    → scope.half_open_probe ≡ true
    → SlotFree (completed scope status err now cb)
unfolding completed
completed-SlotFree scope status err now cb p = ground (
  arith,
  record_success-SlotFree cb,
  record_failure-SlotFree cb now,
  release_probe-SlotFree cb,
  unless_half_open-SlotFree cb,
)

-- The end of any other request does not take a free slot.
pub completed-keeps-SlotFree :
    (scope : RequestScope) (status : ℕ) (err : Err) (now : Time) (cb : CircuitBreaker)
    → SlotFree cb
    → SlotFree (completed scope status err now cb)
unfolding completed
completed-keeps-SlotFree scope status err now cb f =
    ground
      (arith, record_success-SlotFree cb, record_failure-SlotFree cb now, release_probe-SlotFree cb)

pub completed-IsValid :
    (scope : RequestScope) (status : ℕ) (err : Err) (now : Time) (cb : CircuitBreaker)
    → IsValid cb
    → IsValid (completed scope status err now cb)
unfolding completed
completed-IsValid scope status err now cb v = ground (
  arith,
  record_success-IsValid cb v,
  record_failure-IsValid cb now v,
  release_probe-IsValid cb v,
)
