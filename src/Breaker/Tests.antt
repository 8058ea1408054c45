-- ===== src/Breaker/Tests.antt =====
-- Runs of the circuit breaker, and its theorems at concrete inputs.
use thinroute.Prelude.{◌≤◌, ◌≡◌, refl, ◌<◌, ◌⊎◌, true, false, [], ◌∷◌, arith}
use thinroute.Breaker.{
  circuit_closed, circuit_open, CircuitBreaker, new_circuit_breaker, acquire, record_failure,
  record_success, state_name,
}
use thinroute.Breaker.Threshold.{fail_at, fail_at-counts, probe_times, Admitted, probe_times-closes}

program : Unit {0}
unfolding new_circuit_breaker acquire record_failure record_success state_name
program = tt

-- Two failures open the breaker, two successful probes close it; the timeout is 10.
abbrev cb : CircuitBreaker
cb = record {
  state = circuit_closed;
  failures = 0;
  successes = 0;
  failure_threshold = 2;
  success_threshold = 2;
  timeout = 10;
  last_failure = 0;
  half_open_allowed = true;
}

abbrev tripped : CircuitBreaker
tripped = record cb { state = circuit_open; failures = 2; last_failure = 7 }

breaker_tests :
    (new_circuit_breaker 2 2 10 ≡ cb)
    × (record_failure (record_failure cb 5) 7 ≡ tripped)
    × ((acquire tripped 17).1 ≡ false)
    × ((acquire tripped 18).1 ≡ true)
    × ((acquire (acquire tripped 18).0 18).1 ≡ false)
    × (state_name tripped ≡ "open")
unfolding program
breaker_tests = (refl, refl, refl, refl, refl, refl)

fail_at-counts_example :
    (2 ≤ 2) × ((fail_at cb (5 ∷ 7 ∷ [])).state ≡ circuit_open)
    ⊎ (2 < 2)
      × ((fail_at cb (5 ∷ 7 ∷ [])).state ≡ circuit_closed)
      × ((fail_at cb (5 ∷ 7 ∷ [])).failures ≡ 2)
fail_at-counts_example = fail_at-counts cb (5 ∷ 7 ∷ []) refl (omega arith)

probe_times-closes_example :
    Admitted 2 tripped 18
    × ((probe_times 2 tripped 18).state ≡ circuit_closed)
    × ((probe_times 2 tripped 18).failures ≡ 0)
probe_times-closes_example = probe_times-closes 1 tripped 18 refl (omega arith) refl
