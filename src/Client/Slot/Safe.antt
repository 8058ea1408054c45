-- ===== src/Client/Slot/Safe.antt =====
-- No sequence of requests leaves the half-open slot taken for ever.
use thinroute.Breaker.Invariant.{new-IsValid}
use thinroute.Breaker.{new_circuit_breaker}
use thinroute.Clock.{Duration}
use thinroute.Breaker.{record_success}
use thinroute.Client.{should_trip_circuit_breaker, []}
use thinroute.Client.Calls.Attempts.{Settling}
use thinroute.Client.Calls.Probes.{Ends-Settling}
use thinroute.Prelude.{
  ℕ, ◌+◌, ◌<◌, ◌≡◌, refl, ◌⊎◌, inl, inr, true, false, Option, none, some, arith, subst,
}
use thinroute.Clock.{Time, sub_time}
use thinroute.Breaker.{circuit_half_open, CircuitBreaker, acquire, release_probe}
use thinroute.Breaker.Invariant.{release_probe-IsValid}
use thinroute.Client.{
  Client, completed, complete_scope, finish_request_without_breaker,
  record_circuit_breaker_completion, release_half_open_probe, on_breaker,
}
use thinroute.Client.Calls.{Ending, complete, without_breaker, finish, end_scope}
use thinroute.Client.Settles.{
  SlotFree, completed-SlotFree, completed-keeps-SlotFree, completed-IsValid, release_probe-SlotFree,
}
use thinroute.Client.Slot.{
  Traffic, probe_scope, other_scope, Step, turned_away, begins_probe, begins_other, ends_probe,
  ends_other, Reach, here, next, BreakerOk, Inv, begin_request-BreakerOk,
  begin_request-BreakerOk_probe, finish_request-breaker,
}

on_breaker-BreakerOk :
    (f : CircuitBreaker → CircuitBreaker) (n m : ℕ)
    → ((cb : CircuitBreaker) → BreakerOk (some cb) n → BreakerOk (some (f cb)) m)
    → (b : Option CircuitBreaker) → BreakerOk b n
    → BreakerOk (on_breaker f b) m
on_breaker-BreakerOk f n m h none ok = tt
on_breaker-BreakerOk f n m h (some cb) ok = h cb ok

end_scope-probe :
    (now : Time) (ending : Ending) (c : Client) (n m : ℕ)
    → Settling ending
    → BreakerOk c.circuit_breaker n
    → BreakerOk (end_scope probe_scope ending now c).circuit_breaker m
unfolding end_scope complete_scope finish_request_without_breaker
end_scope-probe now (complete status err cb_err) c n m s ok =
    rw (finish_request-breaker status err _) (
      unfold record_circuit_breaker_completion in
      on_breaker-BreakerOk (completed probe_scope status cb_err now) n m
        (λ cb o. (
          completed-IsValid probe_scope status cb_err now cb o.0,
          inl (completed-SlotFree probe_scope status cb_err now cb refl),
        ))
        c.circuit_breaker ok)
end_scope-probe now (without_breaker status err) c n m s ok =
    rw (finish_request-breaker status err _) (
      unfold release_half_open_probe in
      on_breaker-BreakerOk release_probe n m
        (λ cb o. (release_probe-IsValid cb o.0, inl (release_probe-SlotFree cb))) c.circuit_breaker
        ok)
end_scope-probe now (finish status err) c n m s ok = absurd s

end_scope-other :
    (now : Time) (ending : Ending) (c : Client) (n : ℕ)
    → BreakerOk c.circuit_breaker n
    → BreakerOk (end_scope other_scope ending now c).circuit_breaker n
unfolding end_scope complete_scope finish_request_without_breaker
end_scope-other now (complete status err cb_err) c n ok = rw (finish_request-breaker status err _) (
    unfold record_circuit_breaker_completion in
    on_breaker-BreakerOk (completed other_scope status cb_err now) n n
      (λ cb o. (completed-IsValid other_scope status cb_err now cb o.0, kept cb o.1))
      c.circuit_breaker ok)
  where
    kept :
        (cb : CircuitBreaker)
        → SlotFree cb ⊎ (0 < n)
        → SlotFree (completed other_scope status cb_err now cb) ⊎ (0 < n)
    kept cb (inl free) = inl (completed-keeps-SlotFree other_scope status cb_err now cb free)
    kept cb (inr busy) = inr busy
end_scope-other now (without_breaker status err) c n ok =
    rw (finish_request-breaker status err _) (unfold release_half_open_probe in ok)
end_scope-other now (finish status err) c n ok = rw (finish_request-breaker status err _) ok

-- Each step of the traffic keeps the invariant.
Step-Inv : {t u : Traffic} → Step t u → Inv t → Inv u
Step-Inv {t} (turned_away now e c b s) ok = rw s (
    subst (λ p. BreakerOk p.1.circuit_breaker t.probes) b
      (begin_request-BreakerOk now t.client t.client.circuit_breaker t.probes refl ok (rw b refl)))
Step-Inv {t} (begins_probe now c b s) ok = rw s (
    subst (λ p. BreakerOk p.1.circuit_breaker (t.probes + 1)) b
      (begin_request-BreakerOk_probe now t.client t.client.circuit_breaker t.probes refl ok))
Step-Inv {t} (begins_other now c b s) ok = rw s (
    subst (λ p. BreakerOk p.1.circuit_breaker t.probes) b
      (begin_request-BreakerOk now t.client t.client.circuit_breaker t.probes refl ok (rw b refl)))
Step-Inv {t} (ends_probe now ending n ends count s) ok =
    rw s (
      end_scope-probe now ending t.client t.probes n (Ends-Settling probe_scope ending refl ends)
        ok)
Step-Inv {t} (ends_other now ending n ends count s) ok =
    rw s (end_scope-other now ending t.client t.probes ok)

Reach-Inv : {t u : Traffic} → Inv t → Reach t u → Inv u
Reach-Inv ok here = ok
Reach-Inv ok (next r s) = Step-Inv s (Reach-Inv ok r)

new-SlotFree : (f s : ℕ) (timeout : Duration) → SlotFree (new_circuit_breaker f s timeout)
unfolding new_circuit_breaker
new-SlotFree f s timeout h = refl

acquire-allowed :
    (cb : CircuitBreaker) (now : Time)
    → SlotFree cb
    → cb.timeout < sub_time now cb.last_failure
    → (acquire cb now).1 ≡ true
unfolding acquire
acquire-allowed cb now free h = ground arith

idle-allowed :
    (b : Option CircuitBreaker) (cb : CircuitBreaker) (now : Time)
    → b ≡ some cb
    → BreakerOk b 0
    → cb.timeout < sub_time now cb.last_failure
    → (acquire cb now).1 ≡ true
idle-allowed none cb now e ok h = cc
idle-allowed (some cb') cb now e (v, inl free) h =
    let same : cb' ≡ cb = cc in acquire-allowed cb now (rw same at free) h
idle-allowed (some cb') cb now e (v, inr busy) h = absurd (omega arith)

abbrev pub fresh : Client → CircuitBreaker → Traffic
fresh c cb = record { client = record c { circuit_breaker = some cb }; probes = 0; others = 0 }

-- Take a client with a new circuit breaker of a positive failure threshold, and calls of DoRaw,
-- DoStream and DoPassthrough that begin and end in any order and number, each of them ending as its
-- entry point does for some request, answers, waits and number of retries. Whenever no probe is in
-- flight and the breaker's timeout has passed since the last failure, the next request is let
-- through, whatever the breaker's state.
pub reachable-acquire :
    (c : Client) (f s timeout : ℕ) (u : Traffic) (cb : CircuitBreaker) (now : Time)
    → 0 < f
    → Reach (fresh c (new_circuit_breaker f s timeout)) u
    → u.probes ≡ 0
    → u.client.circuit_breaker ≡ some cb
    → cb.timeout < sub_time now cb.last_failure
    → (acquire cb now).1 ≡ true
reachable-acquire c f s timeout u cb now pos r idle e late =
    idle-allowed u.client.circuit_breaker cb now e
      (rw idle at (Reach-Inv (new-IsValid f s timeout pos, inl (new-SlotFree f s timeout)) r)) late

-- While a probe holds the slot of a half-open breaker, the success of a request that is no probe (one
-- that was admitted before the breaker opened) frees the slot: the next request is admitted as a
-- second probe. Condition: that success does not reach the success threshold, and so does not close
-- the breaker.
pub completed-second_probe :
    (cb : CircuitBreaker) (later now : Time)
    → cb.state ≡ circuit_half_open
    → cb.half_open_allowed ≡ false
    → cb.successes + 1 < cb.success_threshold
    → let a = acquire (completed other_scope 200 [] later cb) now in (a.1 ≡ true) × (a.2 ≡ true)
unfolding completed should_trip_circuit_breaker record_success acquire
completed-second_probe cb later now s taken below = ground arith
