-- ===== src/Router.antt =====
-- internal/providers/router.go: routeResolvedModelCall, the call of a provider for a model under
-- the cooldowns. What resolveProvider answers, the call and its answer are arguments, and so are
-- the texts of the two refusals and the readings of the clock. The source holds the tracker's mutex
-- within each of its methods only, and no lock from a request's checks over its call to the recording
-- of a failure. What other requests do to the tracker during the call is an argument of route_during;
-- route_resolved_model_call is the request with none of them, of which the sequences are made.
pub mod Cooling
pub mod Lockout
pub mod Terminal
mod Tests
use thinroute.Cooldown.StatusCode.{record_failure_from_status_code}
use thinroute.Errors.{
  Err, GatewayError, rate_limit_error, gateway, is_nil, as_gateway, gateway_cause,
}
use thinroute.Cooldown.{Float, CooldownKey, CooldownTracker, check}
use thinroute.Selector.{ModelSelector, qualified_model}
use thinroute.Text.{Text, codes, is_empty}
use thinroute.Clock.{Time}
use thinroute.Prelude.{Bool, Option, [], false, if◌then◌else◌, inl, inr, none, some, true, ◌∷◌, ◌⊎◌}

-- The readings of the clock in the two checks and in the recording of a failure.
pub record Clock : Type 0 where
  pub checked : Time
  pub model_checked : Time
  pub failed : Time

-- What a call for a model ends in; `called` tells whether the provider was called.
pub record Routed {ℓ} (Resp : Type ℓ) : Type ℓ where
  pub resp : Option Resp
  pub provider_type : Text
  pub err : Err
  pub called : Bool

abbrev pub provider_key : Text → CooldownKey
provider_key provider = record {
  provider_name = provider;
  key_index = 0;
  model = [];
  scope = codes "provider";
}

abbrev pub model_key : ModelSelector → CooldownKey
model_key s = record {
  provider_name = s.provider;
  key_index = 0;
  model = s.model;
  scope = codes "model";
}

-- NewRateLimitError
abbrev rate_limit : Text → Text → GatewayError
rate_limit provider message = record {
  type = rate_limit_error;
  message = message;
  status_code = 429;
  provider = provider;
  param = none;
  code = none;
  response_body = [];
}

module _ {ℓ κ} (fl : Float) {P : Type ℓ} {Resp : Type κ}
    (call : P → ModelSelector → Option Resp × Err) (provider_type_of : Text → Text)
    (cooling_message : Text → Time → Text) (locked_message : Text → Text → Time → Text)
    (err_text : Err → Text) where
  abbrev refused : Text → Text → Routed Resp
  refused provider message = record {
    resp = none;
    provider_type = [];
    err = gateway (rate_limit provider message) ∷ [];
    called = false;
  }

  -- A failure is recorded where the error's chain has a GatewayError.
  record_error :
      Option GatewayError → ModelSelector → Err → Time → CooldownTracker fl → CooldownTracker fl
  record_error none s err now ct = ct
  record_error (some g) s err now ct =
      let msg = if is_nil (gateway_cause err) then [] else err_text (gateway_cause err) in
      record_failure_from_status_code fl s.provider 0 s.model g.status_code 0 msg now ct

  abbrev answered : ModelSelector → Option Resp × Err → Routed Resp
  answered s (resp, err) = record {
    resp = resp;
    provider_type = provider_type_of (qualified_model s);
    err = err;
    called = true;
  }

  -- The call itself, under cooldowns; `meanwhile` is what other requests do to the tracker during it.
  call_provider :
      (CooldownTracker fl → CooldownTracker fl)
      → P
      → ModelSelector
      → Clock
      → CooldownTracker fl
      → Routed Resp × CooldownTracker fl
  unfolding record_error
  call_provider meanwhile p s clock ct =
      let answer = call p s in
      (answered s answer, record_error (as_gateway answer.1) s answer.1 clock.failed (meanwhile ct))

  -- The check of the model's lockout and what follows.
  check_model :
      (CooldownTracker fl → CooldownTracker fl)
      → P
      → ModelSelector
      → Clock
      → CooldownTracker fl
      → Routed Resp × CooldownTracker fl
  unfolding call_provider
  check_model meanwhile p s clock ct =
      let c = check fl (model_key s) clock.model_checked ct in
      if is_empty s.model
      then call_provider meanwhile p s clock ct
      else if c.0.active
      then (refused s.provider (locked_message s.model s.provider c.0.cooling_until), c.1)
      else call_provider meanwhile p s clock c.1

  -- The check of the provider's cooldown and what follows.
  pub check_provider :
      (CooldownTracker fl → CooldownTracker fl)
      → P
      → ModelSelector
      → Clock
      → CooldownTracker fl
      → Routed Resp × CooldownTracker fl
  unfolding check_model
  check_provider meanwhile p s clock ct =
      let c = check fl (provider_key s.provider) clock.checked ct in
      if c.0.active
      then (refused s.provider (cooling_message s.provider c.0.cooling_until), c.1)
      else check_model meanwhile p s clock c.1

  -- routeResolvedModelCall, with what other requests do to the cooldown tracker during the call; the
  -- tracker may be absent.
  unfoldable pub route_during :
      (CooldownTracker fl → CooldownTracker fl)
      → Err ⊎ (P × ModelSelector)
      → Clock
      → Option (CooldownTracker fl)
      → Routed Resp × Option (CooldownTracker fl)
  unfolding check_provider
  route_during meanwhile (inl err) clock cooldown =
      (record { resp = none; provider_type = []; err = err; called = false }, cooldown)
  route_during meanwhile (inr (p, s)) clock none = (answered s (call p s), none)
  route_during meanwhile (inr (p, s)) clock (some ct) =
      let r = check_provider meanwhile p s clock ct in (r.0, some r.1)

  -- routeResolvedModelCall, with no other request on the tracker from its start to its end.
  unfoldable pub route_resolved_model_call :
      Err ⊎ (P × ModelSelector)
      → Clock
      → Option (CooldownTracker fl)
      → Routed Resp × Option (CooldownTracker fl)
  unfolding route_during
  route_resolved_model_call = route_during (λ ct. ct)
