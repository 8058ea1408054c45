-- ===== src/Router/Lockout.antt =====
-- The lockout of a model after a provider has answered that it does not know it.
use thinroute.Cooldown.Backoff.{first_entry, record_failure-first}
use thinroute.Router.{
  call_provider, check_model, route_during, model_key, record_error, Clock, check_provider,
  provider_key,
}
use thinroute.Errors.{Err, GatewayError, as_gateway, is_nil, gateway_cause}
use thinroute.Text.{Text, is_empty}
use thinroute.Selector.{ModelSelector}
use thinroute.Cooldown.StatusCode.{record_failure_from_status_code}
use thinroute.Cooldown.Keys.{find-drop_key, key_eq_iff}
use thinroute.Clock.{Time, second, sub_time}
use thinroute.Cooldown.{Float, check, CooldownKey, CooldownEntry, CooldownTracker, find}
use thinroute.Prelude.{
  Bool-cases, Option, Option-cases, [], ap, arith, false, if◌then◌else◌, inl, inr, none, refl, some,
  sym, true, ◌*◌, ◌∙◌, ◌≡◌, ◌≤◌,
}

module _ (fl : Float) where
  check-absent :
      (k : CooldownKey) (now : Time) (ct : CooldownTracker fl)
      → (check fl k now ct).0.active ≡ false
      → find k (check fl k now ct).1.entries ≡ none
  unfolding check
  check-absent k now ct h = elim (Option-cases (find k ct.entries)) [
    | inl e ↦ rw e e
    | inr (c, e) ↦ ground (arith, e, find-drop_key k k ct.entries, key_eq_iff k k)
  ]

  check-window :
      (k : CooldownKey) (now : Time) (ct : CooldownTracker fl)
      → (check fl k now ct).1.anti_herd_window ≡ ct.anti_herd_window
  unfolding check
  check-window k now ct = elim (Option-cases (find k ct.entries)) [
    | inl e ↦ rw e refl
    | inr (c, e) ↦ rw e (ground arith)
  ]

  -- What a map that may be absent has for a key.
  abbrev pub found : CooldownKey → Option (CooldownTracker fl) → Option CooldownEntry
  found k none = none
  found k (some ct) = find k ct.entries

  record_404 :
      (s : ModelSelector) (msg : Text) (now : Time) (ct : CooldownTracker fl)
      → is_empty s.model ≡ false
      → find (model_key s) ct.entries ≡ none
      → ct.anti_herd_window ≤ sub_time now 0
      → find
          (model_key s)
          (record_failure_from_status_code fl s.provider 0 s.model 404 0 msg now ct).entries
        ≡ some (first_entry fl (30 * second) now)
  unfolding record_failure_from_status_code
  record_404 s msg now ct named absent apart =
      rw named (record_failure-first fl (model_key s) (30 * second) now ct absent apart)

module _ {ℓ κ} (fl : Float) {P : Type ℓ} {Resp : Type κ}
    (call : P → ModelSelector → Option Resp × Err) (provider_type_of : Text → Text)
    (cooling_message : Text → Time → Text) (locked_message : Text → Text → Time → Text)
    (err_text : Err → Text) (meanwhile : CooldownTracker fl → CooldownTracker fl) where
  -- What other requests do during the call leaves the model's entry and the herd window as they are.
  abbrev pub Spared : ModelSelector → Type 0
  Spared s =
      (x : CooldownTracker fl)
      → (find (model_key s) (meanwhile x).entries ≡ find (model_key s) x.entries)
        × ((meanwhile x).anti_herd_window ≡ x.anti_herd_window)

  call_provider-lockout :
      (p : P) (s : ModelSelector) (clock : Clock) (ct : CooldownTracker fl) (g : GatewayError)
      → is_empty s.model ≡ false
      → find (model_key s) ct.entries ≡ none
      → as_gateway (call p s).1 ≡ some g
      → g.status_code ≡ 404
      → Spared s
      → ct.anti_herd_window ≤ sub_time clock.failed 0
      → find
          (model_key s)
          (call_provider fl call provider_type_of cooling_message locked_message err_text meanwhile
            p s clock ct).1.entries
        ≡ some (first_entry fl (30 * second) clock.failed)
  unfolding call_provider record_error
  call_provider-lockout p s clock ct g named absent e status spared apart = rw e (
      rw status (
        record_404 fl s
          (if is_nil (gateway_cause (call p s).1)
            then []
            else err_text (gateway_cause (call p s).1))
          clock.failed (meanwhile ct) named ((spared ct).0 ∙ absent) (rw ((spared ct).1) apart)))

  check_model-lockout :
      (p : P) (s : ModelSelector) (clock : Clock) (ct : CooldownTracker fl) (g : GatewayError)
      → is_empty s.model ≡ false
      → (check_model fl call provider_type_of cooling_message locked_message err_text meanwhile p s
          clock ct).0.called
        ≡ true
      → as_gateway (call p s).1 ≡ some g
      → g.status_code ≡ 404
      → Spared s
      → ct.anti_herd_window ≤ sub_time clock.failed 0
      → find
          (model_key s)
          (check_model fl call provider_type_of cooling_message locked_message err_text meanwhile p
            s clock ct).1.entries
        ≡ some (first_entry fl (30 * second) clock.failed)
  unfolding check_model
  check_model-lockout p s clock ct g named called e status spared apart =
      let k = model_key s in
      let ct' = (check fl k clock.model_checked ct).1 in
      elim (Bool-cases (check fl k clock.model_checked ct).0.active) [
        | inl active ↦ ground (arith, active, called, named)
        | inr idle_now ↦ rw named (
            rw idle_now (
              call_provider-lockout p s clock ct' g named
                (check-absent fl k clock.model_checked ct idle_now) e status spared
                (rw (check-window fl k clock.model_checked ct) apart)))
      ]

  check_provider-idle :
      (p : P) (s : ModelSelector) (clock : Clock) (ct : CooldownTracker fl)
      → (check fl (provider_key s.provider) clock.checked ct).0.active ≡ false
      → check_provider fl call provider_type_of cooling_message locked_message err_text meanwhile p
          s clock ct
        ≡ check_model fl call provider_type_of cooling_message locked_message err_text meanwhile p s
            clock
            (check fl (provider_key s.provider) clock.checked ct).1
  unfolding check_provider
  check_provider-idle p s clock ct h = rw h refl

  -- Once a call went through the cooldowns to the provider and was answered by 404, the lockout
  -- of the model lasts for the 30 seconds of a first failure, as float64 converts them, and counts
  -- as a first failure, whatever the tracker had recorded before the request. Conditions: the model
  -- is named, the clock is past the herd window, and what other requests do to the tracker during the
  -- call leaves the model's entry and the herd window as they are.
  pub route-lockout :
      (p : P) (s : ModelSelector) (clock : Clock) (ct : CooldownTracker fl) (g : GatewayError)
      (named : is_empty s.model ≡ false) (e : as_gateway (call p s).1 ≡ some g)
      (status : g.status_code ≡ 404) (spared : Spared s)
      (apart : ct.anti_herd_window ≤ sub_time clock.failed 0)
      → let r =
          route_during fl call provider_type_of cooling_message locked_message err_text meanwhile
            (inr (p, s))
            clock
            (some ct) in
        (called : r.0.called ≡ true)
        → found fl (model_key s) r.1 ≡ some (first_entry fl (30 * second) clock.failed)
  unfolding route_during
  route-lockout p s clock ct g named e status spared apart called =
      let k = provider_key s.provider in
      let ct' = (check fl k clock.checked ct).1 in
      elim (Bool-cases (check fl k clock.checked ct).0.active) [
        | inl active ↦ unfold check_provider in ground (arith, active, called)
        | inr idle_now ↦
            let same = check_provider-idle p s clock ct idle_now in
            rw same (
              check_model-lockout p s clock ct' g named (ap (λ r. r.0.called) (sym same) ∙ called) e
                status spared (rw (check-window fl k clock.checked ct) apart))
      ]
