-- ===== src/Router/Terminal.antt =====
-- Whether an answer of a provider ever bans a key.
use thinroute.Router.Cooling.{Round, served}
use thinroute.Router.{
  call_provider, check_model, check_provider, record_error, Clock, route_resolved_model_call,
  model_key, provider_key,
}
use thinroute.Text.{Text}
use thinroute.Errors.{
  Err, Bytes, ProviderErrorDetails, gateway, gateway_cause, as_gateway, parse_provider_error,
}
use thinroute.Clock.{Time, Duration, second}
use thinroute.Cooldown.Keys.{find-put, find-drop_key}
use thinroute.Selector.{ModelSelector}
use thinroute.Cooldown.StatusCode.{
  record_failure_from_status_code, is_terminal_error, key_scope, model_scope,
}
use thinroute.Cooldown.Terminal.{terminal_at, terminal_in, record_entry_calm}
use thinroute.Cooldown.{
  Entries, CooldownKey, CooldownEntry, Float, put, drop_key, check, record_failure, entry_of,
  key_eq, CooldownTracker, find, new_cooldown_tracker_with_config, CooldownConfig,
}
use thinroute.Prelude.{
  Bool, List, Option, Option-cases, [], arith, false, if◌then◌else◌, inl, inr, none, refl, some,
  true, ℕ, ◌*◌, ◌∷◌, ◌≡◌, ◌⊎◌,
}

-- No key has a terminal entry.
abbrev pub NoTerminal : Entries → Type 0
NoTerminal m = (k : CooldownKey) → terminal_at k m ≡ false

put-NoTerminal :
    (key : CooldownKey) (e : CooldownEntry) (m : Entries)
    → e.terminal ≡ false
    → NoTerminal m
    → NoTerminal (put key e m)
put-NoTerminal key e m h none_in k =
    rw (find-put key k e m) (put_terminal (key_eq key k) (find k m) e h (none_in k))
  where
    put_terminal :
        (b : Bool) (o : Option CooldownEntry) (e : CooldownEntry)
        → e.terminal ≡ false
        → terminal_in o ≡ false
        → terminal_in (if b then some e else o) ≡ false
    put_terminal true o e h n = h
    put_terminal false o e h n = n

drop_key-NoTerminal : (key : CooldownKey) (m : Entries) → NoTerminal m → NoTerminal (drop_key key m)
drop_key-NoTerminal key m none_in k =
    rw (find-drop_key key k m) (drop_terminal (key_eq key k) (find k m) (none_in k))
  where
    drop_terminal :
        (b : Bool) (o : Option CooldownEntry)
        → terminal_in o ≡ false
        → terminal_in (if b then none else o) ≡ false
    drop_terminal true o n = refl
    drop_terminal false o n = n

calm_entry : (o : Option CooldownEntry) → terminal_in o ≡ false → (entry_of o).terminal ≡ false
calm_entry none h = refl
calm_entry (some e) h = h

module _ (fl : Float) where
  check-NoTerminal :
      (key : CooldownKey) (now : Time) (ct : CooldownTracker fl)
      → NoTerminal ct.entries
      → NoTerminal (check fl key now ct).1.entries
  unfolding check
  check-NoTerminal key now ct h k = ground (arith, h k, drop_key-NoTerminal key ct.entries h k)

  record_failure-NoTerminal :
      (key : CooldownKey) (d : Duration) (now : Time) (ct : CooldownTracker fl)
      → NoTerminal ct.entries
      → NoTerminal (record_failure fl key d now ct).1.entries
  unfolding record_failure
  record_failure-NoTerminal key d now ct h k =
      record_entry_calm fl (entry_of (find key ct.entries)) key k d now ct
        (calm_entry (find key ct.entries) (h key)) (h k)

  report-NoTerminal :
      (q : Text) (i : ℕ) (m : Text) (s : ℕ) (r : Duration) (now : Time) (ct : CooldownTracker fl)
      → NoTerminal ct.entries
      → NoTerminal (record_failure_from_status_code fl q i m s r [] now ct).entries
  unfolding record_failure_from_status_code is_terminal_error
  report-NoTerminal q i m s r now ct h k = ground (
    arith,
    h k,
    record_failure-NoTerminal (key_scope fl q i) (5 * second) now ct h k,
    record_failure-NoTerminal (key_scope fl q i) r now ct h k,
    record_failure-NoTerminal (model_scope fl q i m) (30 * second) now ct h k,
  )

module _ {ℓ κ} (fl : Float) {P : Type ℓ} {Resp : Type κ}
    (call : P → ModelSelector → Option Resp × Err) (provider_type_of : Text → Text)
    (cooling_message : Text → Time → Text) (locked_message : Text → Text → Time → Text)
    (err_text : Err → Text)
    (bare : (p : P) (s : ModelSelector) → gateway_cause (call p s).1 ≡ []) where
  call_provider-NoTerminal :
      (p : P) (s : ModelSelector) (clock : Clock) (ct : CooldownTracker fl)
      → NoTerminal ct.entries
      → NoTerminal
          (call_provider fl call provider_type_of cooling_message locked_message err_text
            (λ x. x)
            p
            s
            clock
            ct).1.entries
  unfolding call_provider record_error
  call_provider-NoTerminal p s clock ct h = elim (Option-cases (as_gateway (call p s).1)) [
    | inl e ↦ rw e h
    | inr (g, e) ↦ rw e (
        rw (bare p s) (report-NoTerminal fl s.provider 0 s.model g.status_code 0 clock.failed ct h))
  ]

  check_model-NoTerminal :
      (p : P) (s : ModelSelector) (clock : Clock) (ct : CooldownTracker fl)
      → NoTerminal ct.entries
      → NoTerminal
          (check_model fl call provider_type_of cooling_message locked_message err_text
            (λ x. x)
            p
            s
            clock
            ct).1.entries
  unfolding check_model
  check_model-NoTerminal p s clock ct h k = ground (
    arith,
    call_provider-NoTerminal p s clock ct h k,
    check-NoTerminal fl (model_key s) clock.model_checked ct h k,
    call_provider-NoTerminal p s clock (check fl (model_key s) clock.model_checked ct).1
        (check-NoTerminal fl (model_key s) clock.model_checked ct h) k,
  )

  check_provider-NoTerminal :
      (p : P) (s : ModelSelector) (clock : Clock) (ct : CooldownTracker fl)
      → NoTerminal ct.entries
      → NoTerminal
          (check_provider fl call provider_type_of cooling_message locked_message err_text
            (λ x. x)
            p
            s
            clock
            ct).1.entries
  unfolding check_provider
  check_provider-NoTerminal p s clock ct h k =
      let checked = check-NoTerminal fl (provider_key s.provider) clock.checked ct h in
      let ct' = (check fl (provider_key s.provider) clock.checked ct).1 in
      ground (arith, checked k, check_model-NoTerminal p s clock ct' checked k)

  abbrev after_rounds :
      List (Round fl call provider_type_of cooling_message locked_message err_text)
      → CooldownTracker fl
      → CooldownTracker fl
  after_rounds = served fl call provider_type_of cooling_message locked_message err_text

  served-NoTerminal :
      (rounds : List (Round fl call provider_type_of cooling_message locked_message err_text))
      (ct : CooldownTracker fl)
      → NoTerminal ct.entries
      → NoTerminal (after_rounds rounds ct).entries
  unfolding served route_resolved_model_call
  served-NoTerminal [] ct h = h
  served-NoTerminal ((inl err, clock) ∷ rest) ct h = served-NoTerminal rest ct h
  served-NoTerminal ((inr (p, s), clock) ∷ rest) ct h =
      served-NoTerminal rest
        (check_provider fl call provider_type_of cooling_message locked_message err_text (λ x. x) p
          s clock ct).1
        (check_provider-NoTerminal p s clock ct h)

  check-calm :
      (key : CooldownKey) (now : Time) (ct : CooldownTracker fl)
      → terminal_at key ct.entries ≡ false
      → (check fl key now ct).0.terminal ≡ false
  unfolding check
  check-calm key now ct h = ground arith

  served-fresh :
      (rounds : List (Round fl call provider_type_of cooling_message locked_message err_text))
      (cfg : CooldownConfig fl) (key : CooldownKey) (now : Time)
      → (check fl key now
          (after_rounds rounds (new_cooldown_tracker_with_config fl cfg))).0.terminal
        ≡ false
  unfolding new_cooldown_tracker_with_config find
  served-fresh rounds cfg key now =
      let start = new_cooldown_tracker_with_config fl cfg in
      check-calm key now (after_rounds rounds start)
        (served-NoTerminal rounds start (λ k. refl) key)

module _ {ℓ κ} (fl : Float) {P : Type ℓ} {Resp : Type κ} (string_of : Bytes → Text)
    (parse : Bytes → ProviderErrorDetails) (answers : P → ModelSelector → Resp ⊎ (ℕ × Bytes)) where
  abbrev call_result : ModelSelector → Resp ⊎ (ℕ × Bytes) → Option Resp × Err
  call_result s (inl resp) = (some resp, [])
  call_result s (inr (status, body)) =
      (none, gateway (parse_provider_error string_of parse s.provider status body) ∷ [])

  -- The call of a provider that always answers: by a response, or by a status code and a body, of
  -- which ParseProviderError makes the error.
  abbrev pub answering : P → ModelSelector → Option Resp × Err
  answering p s = call_result s (answers p s)

  call_result-bare :
      (s : ModelSelector) (a : Resp ⊎ (ℕ × Bytes)) → gateway_cause (call_result s a).1 ≡ []
  unfolding gateway_cause
  call_result-bare s (inl resp) = refl
  call_result-bare s (inr (status, body)) = refl

  -- No answer of a provider bans a key: after any sequence of requests on a fresh tracker, one after
  -- the other, each of which its provider answers by a response or by an error of any status code and
  -- body, the check of any key at any time says that it is not terminal, also where the bodies say
  -- that the key is banned. Condition: every call is answered; an error of the transport, which the
  -- client wraps, is not among them.
  pub served-never_terminal :
      (provider_type_of : Text → Text) (cooling_message : Text → Time → Text)
      (locked_message : Text → Text → Time → Text) (err_text : Err → Text)
      (rounds : List (Round fl answering provider_type_of cooling_message locked_message err_text))
      (cfg : CooldownConfig fl) (key : CooldownKey) (now : Time)
      → (check fl key now (
          served fl answering provider_type_of cooling_message locked_message err_text rounds
            (new_cooldown_tracker_with_config fl cfg))).0.terminal
        ≡ false
  served-never_terminal provider_type_of cooling_message locked_message err_text rounds cfg key
        now =
      served-fresh fl answering provider_type_of cooling_message locked_message err_text
        (λ p s. call_result-bare s (answers p s)) rounds cfg key now
