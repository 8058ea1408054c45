-- ===== src/Client/Slot.antt =====
-- The half-open slot of the breaker under requests that run at the same time: calls of DoRaw, DoStream
-- and DoPassthrough of internal/llmclient/client.go. A request is in flight from beginRequest to the
-- call that ends its scope, which is one that its entry point reaches; other requests may begin and
-- end in between, at any times.
pub mod Safe
use thinroute.Client.Calls.Probes.{Ends}
use thinroute.Prelude.{
  ℕ, ◌+◌, ◌<◌, ◌≡◌, refl, ◌⊎◌, inr, Bool, true, false, Option, none, some, arith, sym, ◌∙◌,
}
use thinroute.Clock.{Time}
use thinroute.Errors.{Err}
use thinroute.Breaker.{CircuitBreaker, acquire}
use thinroute.Breaker.Invariant.{IsValid, acquire-IsValid}
use thinroute.Client.{
  Client, Event, request_start, emit, admit, begin_with, open_error, RequestScope, Begun, begun,
  refused, begin_request, finish_request,
}
use thinroute.Client.Calls.{Ending, end_scope}
use thinroute.Client.Settles.{SlotFree}

pub record Traffic : Type 0 where
  pub client : Client
  pub probes : ℕ  -- half-open probes in flight
  pub others : ℕ  -- other requests in flight

abbrev pub probe_scope : RequestScope
probe_scope = record { half_open_probe = true }

abbrev pub other_scope : RequestScope
other_scope = record { half_open_probe = false }

pub data Step (t : Traffic) (u : Traffic) : Type 0 where
  turned_away :
      (now : Time) (e : Err) (c : Client)
      → begin_request now t.client ≡ (refused e, c)
      → u ≡ record t { client = c }
      → Step t u
  begins_probe :
      (now : Time) (c : Client)
      → begin_request now t.client ≡ (begun probe_scope, c)
      → u ≡ record t { client = c; probes = t.probes + 1 }
      → Step t u
  begins_other :
      (now : Time) (c : Client)
      → begin_request now t.client ≡ (begun other_scope, c)
      → u ≡ record t { client = c; others = t.others + 1 }
      → Step t u
  ends_probe :
      (now : Time) (ending : Ending) (n : ℕ)
      → Ends probe_scope ending
      → t.probes ≡ n + 1
      → u ≡ record t { client = end_scope probe_scope ending now t.client; probes = n }
      → Step t u
  ends_other :
      (now : Time) (ending : Ending) (n : ℕ)
      → Ends other_scope ending
      → t.others ≡ n + 1
      → u ≡ record t { client = end_scope other_scope ending now t.client; others = n }
      → Step t u

pub data Reach (t : Traffic) : Traffic → Type 0 where
  here : Reach t t
  next : {u v : Traffic} → Reach t u → Step u v → Reach t v

-- A breaker is well-formed, and a slot that is taken is held by a probe in flight.
abbrev pub BreakerOk : Option CircuitBreaker → ℕ → Type 0
BreakerOk none n = Unit
BreakerOk (some cb) n = IsValid cb × (SlotFree cb ⊎ (0 < n))

abbrev pub Inv : Traffic → Type 0
Inv t = BreakerOk t.client.circuit_breaker t.probes

acquire-slot :
    (cb : CircuitBreaker) (now : Time)
    → ((acquire cb now).2 ≡ true) ⊎ (SlotFree cb → SlotFree (acquire cb now).0)
unfolding acquire
acquire-slot cb now = ground arith

pub finish_request-breaker :
    (status : ℕ) (err : Err) (c : Client)
    → (finish_request status err c).circuit_breaker ≡ c.circuit_breaker
unfolding finish_request
finish_request-breaker status err c = ground arith

emit-breaker :
    (b : Bool) (e : Event) (c : Client) → (emit b e c).circuit_breaker ≡ c.circuit_breaker
emit-breaker b e c = ground arith

admit-breaker :
    (c : Client) (a : CircuitBreaker × Bool × Bool) → (admit c a).1.circuit_breaker ≡ some a.0
admit-breaker c (cb, true, probe) = refl
admit-breaker c (cb, false, probe) =
    finish_request-breaker 503 (open_error c.provider_name) (record c { circuit_breaker = some cb })

-- What beginRequest says of the probe is what acquire says.
abbrev pub ProbeIs : Begun → Bool → Type 0
ProbeIs (begun scope) probe = scope.half_open_probe ≡ probe
ProbeIs (refused e) probe = probe ≡ false

admit-ProbeIs :
    (c : Client) (a : CircuitBreaker × Bool × Bool)
    → (a.1 ≡ false → a.2 ≡ false)
    → ProbeIs (admit c a).0 a.2
admit-ProbeIs c (cb, true, probe) h = refl
admit-ProbeIs c (cb, false, probe) h = h refl

acquire_refused :
    (cb : CircuitBreaker) (now : Time) → (acquire cb now).1 ≡ false → (acquire cb now).2 ≡ false
unfolding acquire
acquire_refused cb now h = ground arith

ProbeIs-unique : (b : Begun) {p q : Bool} → ProbeIs b p → ProbeIs b q → p ≡ q
ProbeIs-unique (begun scope) h k = sym h ∙ k
ProbeIs-unique (refused e) h k = h ∙ sym k

begin_request-some :
    (now : Time) (c : Client) (cb : CircuitBreaker)
    → c.circuit_breaker ≡ some cb
    → ((begin_request now c).1.circuit_breaker ≡ some (acquire cb now).0)
      × ProbeIs (begin_request now c).0 (acquire cb now).2
unfolding begin_request
begin_request-some now c cb e =
    let c' = emit c.on_request_start request_start c in
    rw (emit-breaker c.on_request_start request_start c ∙ e, begin_with)
      (
        admit-breaker c' (acquire cb now),
        admit-ProbeIs c' (acquire cb now) (acquire_refused cb now),
      )

begin_request-none :
    (now : Time) (c : Client)
    → c.circuit_breaker ≡ none
    → (begin_request now c).1.circuit_breaker ≡ none
unfolding begin_request
begin_request-none now c e = ground arith

acquire-BreakerOk :
    (cb : CircuitBreaker) (now : Time) (n : ℕ)
    → (acquire cb now).2 ≡ false
    → BreakerOk (some cb) n
    → BreakerOk (some (acquire cb now).0) n
acquire-BreakerOk cb now n h (v, ok) =
    (acquire-IsValid cb now v, ground (arith, acquire-slot cb now))

-- A begin that is no probe keeps the invariant, and one that is a probe makes it hold.
pub begin_request-BreakerOk :
    (now : Time) (c : Client) (b : Option CircuitBreaker) (n : ℕ)
    → c.circuit_breaker ≡ b
    → BreakerOk b n
    → ProbeIs (begin_request now c).0 false
    → BreakerOk (begin_request now c).1.circuit_breaker n
begin_request-BreakerOk now c none n e ok p = rw (begin_request-none now c e) tt
begin_request-BreakerOk now c (some cb) n e ok p =
    let (same, probe) = begin_request-some now c cb e in
    rw same (acquire-BreakerOk cb now n (ProbeIs-unique _ probe p) ok)

pub begin_request-BreakerOk_probe :
    (now : Time) (c : Client) (b : Option CircuitBreaker) (n : ℕ)
    → c.circuit_breaker ≡ b
    → BreakerOk b n
    → BreakerOk (begin_request now c).1.circuit_breaker (n + 1)
begin_request-BreakerOk_probe now c none n e ok = rw (begin_request-none now c e) tt
begin_request-BreakerOk_probe now c (some cb) n e (v, ok) =
    rw ((begin_request-some now c cb e).0) (acquire-IsValid cb now v, inr (omega arith))
