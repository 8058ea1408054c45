-- ===== src/Breaker/Threshold.antt =====
-- How many failures open the circuit breaker, and how many probes close it again.
use thinroute.Prelude.{
  ℕ, zero, suc, ◌+◌, ◌≤◌, ◌<◌, ◌≡◌, refl, ◌⊎◌, inl, inr, true, sym, subst, List, [], ◌∷◌, arith,
  length,
}
use thinroute.Clock.{Time, sub_time}
use thinroute.Breaker.{
  circuit_closed, circuit_open, circuit_half_open, CircuitBreaker, acquire, record_success,
  record_failure,
}

-- Failures reported one after the other, at the given times.
pub fail_at : CircuitBreaker → List Time → CircuitBreaker
fail_at cb [] = cb
fail_at cb (now ∷ ts) = fail_at (record_failure cb now) ts

fail_at-open :
    (cb : CircuitBreaker) (ts : List Time)
    → cb.state ≡ circuit_open
    → (fail_at cb ts).state ≡ circuit_open
unfolding fail_at record_failure
fail_at-open cb [] o = o
fail_at-open cb (now ∷ ts) o = fail_at-open (record_failure cb now) ts (ground arith)

record_failure_closed :
    (cb : CircuitBreaker) (now : Time)
    → cb.state ≡ circuit_closed
    → ((record_failure cb now).failures ≡ cb.failures + 1)
      × ((record_failure cb now).failure_threshold ≡ cb.failure_threshold)
      × ((cb.failure_threshold ≤ cb.failures + 1) × ((record_failure cb now).state ≡ circuit_open)
          ⊎ (cb.failures + 1 < cb.failure_threshold)
            × ((record_failure cb now).state ≡ circuit_closed))
unfolding record_failure
record_failure_closed cb now c = ground arith

-- A closed breaker whose failures are below the threshold, after a run of failures: it is open if,
-- with those counted before, they reach the threshold; otherwise it is closed, with all of them
-- counted.
pub fail_at-counts :
    (cb : CircuitBreaker) (ts : List Time)
    → cb.state ≡ circuit_closed
    → cb.failures < cb.failure_threshold
    → (cb.failure_threshold ≤ cb.failures + length ts) × ((fail_at cb ts).state ≡ circuit_open)
      ⊎ (cb.failures + length ts < cb.failure_threshold)
        × ((fail_at cb ts).state ≡ circuit_closed)
        × ((fail_at cb ts).failures ≡ cb.failures + length ts)
unfolding fail_at
fail_at-counts cb [] c h = inr (omega arith, c, omega arith)
fail_at-counts cb (now ∷ ts) c h =
    let (counted, same, split) = record_failure_closed cb now c in
    elim split [
      | inl (reached, o) ↦ inl (omega arith, fail_at-open (record_failure cb now) ts o)
      | inr (less, k) ↦ elim (fail_at-counts (record_failure cb now) ts k (omega arith)) [
        | inl (more, o) ↦ inl (omega arith, o)
        | inr (below, o, n) ↦ inr (omega arith, o, omega (arith, n))
      ]
    ]

-- Requests that the breaker is asked for at `now` and that succeed, one after the other.
pub probe_times : ℕ → CircuitBreaker → Time → CircuitBreaker
probe_times zero cb now = cb
probe_times (suc n) cb now = probe_times n (record_success (acquire cb now).0) now

-- Each of these requests is let through, as the half-open probe.
unfoldable pub Admitted : ℕ → CircuitBreaker → Time → Type 0
Admitted zero cb now = Unit
Admitted (suc n) cb now =
    ((acquire cb now).1 ≡ true)
    × ((acquire cb now).2 ≡ true)
    × Admitted n (record_success (acquire cb now).0) now

probe_round :
    (cb : CircuitBreaker) (now : Time)
    → cb.state ≡ circuit_half_open
    → cb.half_open_allowed ≡ true
    → let cb' = record_success (acquire cb now).0 in
      ((acquire cb now).1 ≡ true)
      × ((acquire cb now).2 ≡ true)
      × (cb'.success_threshold ≡ cb.success_threshold)
      × ((cb.successes + 1 < cb.success_threshold)
            × (cb'.state ≡ circuit_half_open)
            × (cb'.half_open_allowed ≡ true)
            × (cb'.successes ≡ cb.successes + 1)
          ⊎ (cb.success_threshold ≤ cb.successes + 1)
            × (cb'.state ≡ circuit_closed)
            × (cb'.failures ≡ 0))
unfolding acquire record_success
probe_round cb now s a = ground arith

probe_from :
    (n : ℕ) (cb : CircuitBreaker) (now : Time)
    → cb.state ≡ circuit_half_open
    → cb.half_open_allowed ≡ true
    → cb.success_threshold ≡ cb.successes + suc n
    → Admitted (suc n) cb now
      × ((probe_times (suc n) cb now).state ≡ circuit_closed)
      × ((probe_times (suc n) cb now).failures ≡ 0)
unfolding probe_times Admitted
probe_from zero cb now s a e =
    let (allowed, probe, same, split) = probe_round cb now s a in
    ((allowed, probe, tt), ground (arith, same, split), ground (arith, same, split))
probe_from (suc n) cb now s a e =
    let (allowed, probe, same, split) = probe_round cb now s a in
    elim split [
      | inl (_, s', a', k) ↦
          let (admitted, closed, none_counted) =
            probe_from n (record_success (acquire cb now).0) now s' a' (omega arith) in
          ((allowed, probe, admitted), closed, none_counted)
      | inr (reached, _, _) ↦ absurd (omega arith)
    ]

-- The open breaker after its timeout, as acquire turns it.
abbrev pub woken : CircuitBreaker → CircuitBreaker
woken cb = record cb { state = circuit_half_open; successes = 0; half_open_allowed = true }

acquire_elapsed :
    (cb : CircuitBreaker) (now : Time)
    → cb.state ≡ circuit_open
    → cb.timeout < sub_time now cb.last_failure
    → acquire cb now ≡ acquire (woken cb) now
unfolding acquire
acquire_elapsed cb now o h = ground arith

-- An open breaker whose timeout has passed lets as many requests through, each as the half-open
-- probe once the one before has succeeded, as the success threshold says (at least one), and their
-- successes close it, with no failure counted.
pub probe_times-closes :
    (n : ℕ) (cb : CircuitBreaker) (now : Time)
    → cb.state ≡ circuit_open
    → cb.timeout < sub_time now cb.last_failure
    → cb.success_threshold ≡ suc n
    → Admitted (suc n) cb now
      × ((probe_times (suc n) cb now).state ≡ circuit_closed)
      × ((probe_times (suc n) cb now).failures ≡ 0)
unfolding probe_times Admitted
probe_times-closes n cb now o h e =
    subst
      (λ a.
        ((a.1 ≡ true) × (a.2 ≡ true) × Admitted n (record_success a.0) now)
        × ((probe_times n (record_success a.0) now).state ≡ circuit_closed)
        × ((probe_times n (record_success a.0) now).failures ≡ 0))
      (sym (acquire_elapsed cb now o h)) (probe_from n (woken cb) now refl refl (omega arith))
