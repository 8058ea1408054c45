-- ===== src/Router/Cooling.antt =====
-- Which calls the cooldowns let through.
use thinroute.Prelude.{
  List, Option, Option-cases, [], arith, false, if◌then◌else◌, inl, inr, none, refl, some, true, ℕ,
  ◌*◌, ◌+◌, ◌∙◌, ◌∷◌, ◌≡◌, ◌⊎◌,
}
use thinroute.Clock.{Time, Duration, second}
use thinroute.Cooldown.{
  Entries, key_eq, Float, check, record_failure, mark_terminal, find, CooldownKey, CooldownTracker,
  entry_of, year, idle, new_cooldown_tracker_with_config, CooldownConfig,
}
use thinroute.Errors.{Err, as_gateway, is_nil, gateway_cause}
use thinroute.Router.{
  provider_key, Clock, call_provider, check_model, check_provider, Routed,
  route_resolved_model_call, record_error, model_key,
}
use thinroute.Selector.{ModelSelector}
use thinroute.Text.{Text, text_eq, codes}
use thinroute.Cooldown.Keys.{find-drop_key, find-put}
use thinroute.Cooldown.StatusCode.{record_failure_from_status_code, key_scope, model_scope}
use thinroute.Cooldown.Terminal.{record_entry-find_ne}

-- The map has no cooldown of a provider.
abbrev pub NoProvider : Entries → Type 0
NoProvider m = (p : Text) → find (provider_key p) m ≡ none

scopes_ne :
    (p q : Text) (i : ℕ) (m s : Text)
    → text_eq s (codes "provider") ≡ false
    → key_eq (record { provider_name = q; key_index = i; model = m; scope = s }) (provider_key p)
      ≡ false
unfolding key_eq
scopes_ne p q i m s h = ground arith

module _ (fl : Float) where
  check-NoProvider :
      (k : CooldownKey) (now : Time) (ct : CooldownTracker fl)
      → NoProvider ct.entries
      → NoProvider (check fl k now ct).1.entries
  unfolding check
  check-NoProvider k now ct h p = ground (arith, h p, find-drop_key k (provider_key p) ct.entries)

  record_failure-NoProvider :
      (k : CooldownKey) (d : Duration) (now : Time) (ct : CooldownTracker fl)
      → text_eq k.scope (codes "provider") ≡ false
      → NoProvider ct.entries
      → NoProvider (record_failure fl k d now ct).1.entries
  unfolding record_failure
  record_failure-NoProvider k d now ct h none_in p =
      record_entry-find_ne fl (entry_of (find k ct.entries)) (provider_key p) k d now ct
        (scopes_ne p k.provider_name k.key_index k.model k.scope h)
      ∙ none_in p

  mark_terminal-NoProvider :
      (k : CooldownKey) (now : Time) (ct : CooldownTracker fl)
      → text_eq k.scope (codes "provider") ≡ false
      → NoProvider ct.entries
      → NoProvider (mark_terminal fl k now ct).entries
  unfolding mark_terminal
  mark_terminal-NoProvider k now ct h none_in p =
      rw
        (find-put k (provider_key p)
          (record { until = now + year; failures = 0; last_failure = 0; terminal = true })
          ct.entries)
        (ground (arith, none_in p, scopes_ne p k.provider_name k.key_index k.model k.scope h))

  report-NoProvider :
      (q : Text) (i : ℕ) (m : Text) (s : ℕ) (r : Duration) (msg : Text) (now : Time)
      (ct : CooldownTracker fl)
      → NoProvider ct.entries
      → NoProvider (record_failure_from_status_code fl q i m s r msg now ct).entries
  unfolding record_failure_from_status_code text_eq
  report-NoProvider q i m s r msg now ct h p = ground (
    arith,
    h p,
    mark_terminal-NoProvider (key_scope fl q i) now ct refl h p,
    record_failure-NoProvider (key_scope fl q i) (5 * second) now ct refl h p,
    record_failure-NoProvider (key_scope fl q i) r now ct refl h p,
    record_failure-NoProvider (model_scope fl q i m) (30 * second) now ct refl h p,
  )

module _ {ℓ κ} (fl : Float) {P : Type ℓ} {Resp : Type κ}
    (call : P → ModelSelector → Option Resp × Err) (provider_type_of : Text → Text)
    (cooling_message : Text → Time → Text) (locked_message : Text → Text → Time → Text)
    (err_text : Err → Text) where
  abbrev through : P → ModelSelector → Clock → CooldownTracker fl → Routed Resp × CooldownTracker fl
  through = check_provider fl call provider_type_of cooling_message locked_message err_text (λ x. x)

  call_provider-NoProvider :
      (p : P) (s : ModelSelector) (clock : Clock) (ct : CooldownTracker fl)
      → NoProvider ct.entries
      → NoProvider
          (call_provider fl call provider_type_of cooling_message locked_message err_text
            (λ x. x)
            p
            s
            clock
            ct).1.entries
  unfolding call_provider record_error
  call_provider-NoProvider p s clock ct h = elim (Option-cases (as_gateway (call p s).1)) [
    | inl e ↦ rw e h
    | inr (g, e) ↦ rw e (
        report-NoProvider fl s.provider 0 s.model g.status_code 0
          (if is_nil (gateway_cause (call p s).1)
            then []
            else err_text (gateway_cause (call p s).1))
          clock.failed ct h)
  ]

  check_model-NoProvider :
      (p : P) (s : ModelSelector) (clock : Clock) (ct : CooldownTracker fl)
      → NoProvider ct.entries
      → NoProvider
          (check_model fl call provider_type_of cooling_message locked_message err_text
            (λ x. x)
            p
            s
            clock
            ct).1.entries
  unfolding check_model
  check_model-NoProvider p s clock ct h q = ground (
    arith,
    call_provider-NoProvider p s clock ct h q,
    check-NoProvider fl (model_key s) clock.model_checked ct h q,
    call_provider-NoProvider p s clock (check fl (model_key s) clock.model_checked ct).1
        (check-NoProvider fl (model_key s) clock.model_checked ct h) q,
  )

  check-idle :
      (k : CooldownKey) (now : Time) (ct : CooldownTracker fl)
      → find k ct.entries ≡ none
      → check fl k now ct ≡ (idle, ct)
  unfolding check
  check-idle k now ct h = rw h refl

  check_provider-through :
      (p : P) (s : ModelSelector) (clock : Clock) (ct : CooldownTracker fl)
      → NoProvider ct.entries
      → through p s clock ct
        ≡ check_model fl call provider_type_of cooling_message locked_message err_text
            (λ x. x)
            p
            s
            clock
            ct
  unfolding check_provider
  check_provider-through p s clock ct h =
      rw (check-idle (provider_key s.provider) clock.checked ct (h s.provider)) refl

  -- A request for a model: what resolving it has answered, and the clock.
  abbrev pub Round : Type ℓ
  Round = (Err ⊎ (P × ModelSelector)) × Clock

  abbrev pub routed : Round → CooldownTracker fl → Routed Resp × Option (CooldownTracker fl)
  routed (resolved, clock) ct =
      route_resolved_model_call fl call provider_type_of cooling_message locked_message err_text
        resolved clock (some ct)

  abbrev tracker_of : CooldownTracker fl → Option (CooldownTracker fl) → CooldownTracker fl
  tracker_of ct none = ct
  tracker_of _ (some ct) = ct

  -- The tracker after a sequence of requests.
  unfoldable pub served : List Round → CooldownTracker fl → CooldownTracker fl
  served [] ct = ct
  served (r ∷ rest) ct = served rest (tracker_of ct (routed r ct).1)

  served-NoProvider :
      (rounds : List Round) (ct : CooldownTracker fl)
      → NoProvider ct.entries
      → NoProvider (served rounds ct).entries
  unfolding served route_resolved_model_call
  served-NoProvider [] ct h = h
  served-NoProvider ((inl err, clock) ∷ rest) ct h = served-NoProvider rest ct h
  served-NoProvider ((inr (p, s), clock) ∷ rest) ct h =
      served-NoProvider rest (through p s clock ct).1
        (rw (check_provider-through p s clock ct h) (check_model-NoProvider p s clock ct h))

  called-unlocked :
      (p : P) (s : ModelSelector) (clock : Clock) (ct : CooldownTracker fl)
      → (check fl (model_key s) clock.model_checked ct).0.active ≡ false
      → (check_model fl call provider_type_of cooling_message locked_message err_text
          (λ x. x)
          p
          s
          clock
          ct).0.called
        ≡ true
  unfolding check_model call_provider
  called-unlocked p s clock ct h = ground arith

  -- A provider is never held back by a cooldown: after any sequence of requests on a fresh
  -- tracker, one after the other, whatever the provider answered to them (401, 403 and 429 included), a request for a
  -- model that is resolved to the provider calls it, unless the model itself is locked out.
  -- Condition: the model's own cooldown is not active when it is checked.
  pub served-called :
      (rounds : List Round) (cfg : CooldownConfig fl) (p : P) (s : ModelSelector) (clock : Clock)
      → let ct = served rounds (new_cooldown_tracker_with_config fl cfg) in
        (unlocked : (check fl (model_key s) clock.model_checked ct).0.active ≡ false)
        → (routed (inr (p, s), clock) ct).0.called ≡ true
  unfolding route_resolved_model_call new_cooldown_tracker_with_config find
  served-called rounds cfg p s clock unlocked =
      let start = new_cooldown_tracker_with_config fl cfg in
      let ct = served rounds start in
      rw (check_provider-through p s clock ct (served-NoProvider rounds start (λ q. refl)))
        (called-unlocked p s clock ct unlocked)
