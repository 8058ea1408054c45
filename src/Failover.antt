-- ===== src/Failover.antt =====
-- internal/gateway/failover.go: the sweep of the failover targets after the primary model has
-- failed. Logging is left out. The state of the world (the request's context, the authorizer, the
-- rate limits, the providers) is a type `W` that a call of a provider changes.
pub mod Kinds
pub mod Statuses
pub mod Targets
pub mod Runs
pub mod Sweep
pub mod Admitted
mod Tests
use thinroute.Failover.Kinds.{should_attempt_failover}
use thinroute.Attempts.{
  ProviderAttempt, AttemptRecorder, provider_attempt_from_result, record_provider_attempt,
}
use thinroute.Errors.{Err, is_nil}
use thinroute.Selector.{ModelSelector, qualified_model}
use thinroute.Text.{Text, is_empty, trim_space, codes}
use thinroute.Prelude.{Bool, List, Option, [], false, if◌then◌else◌, none, not, some, true, ◌∷◌}

-- The provider that the orchestrator has: GetProviderType and, where it resolves names,
-- GetProviderName.
pub record RoutableProvider : Type 0 where
  pub get_provider_type : Text → Text
  pub get_provider_name : Option (Text → Text)

abbrev or_else : Text → Text → Text
or_else s t = if is_empty s then t else s

-- ProviderTypeForSelector
unfoldable pub provider_type_for_selector : Option RoutableProvider → ModelSelector → Text → Text
provider_type_for_selector none s fallback = or_else (trim_space s.provider) (trim_space fallback)
provider_type_for_selector (some p) s fallback =
    or_else (trim_space (p.get_provider_type (qualified_model s)))
      (or_else (trim_space s.provider) (trim_space fallback))

abbrev name_at : Option (Text → Text) → ModelSelector → Text → Text
name_at none s fallback = fallback
name_at (some named) s fallback = or_else (trim_space (named (qualified_model s))) fallback

-- ResolvedProviderName
unfoldable pub resolved_provider_name : Option RoutableProvider → ModelSelector → Text → Text
resolved_provider_name none s fallback = trim_space fallback
resolved_provider_name (some p) s fallback = name_at p.get_provider_name s (trim_space fallback)

-- firstNonEmptyString, of two strings
unfoldable pub first_non_empty_string : Text → Text → Text
first_non_empty_string a b = or_else (trim_space a) (trim_space b)

-- What a call of a provider ends in.
pub record Called {ℓ κ} (W : Type ℓ) (Resp : Type κ) : Type (ℓ ⊔ κ) where
  pub resp : Resp
  pub provider_type : Text
  pub err : Err
  pub world : W

-- What tryFailoverResponse returns; `used` tells whether a target has answered.
pub record Outcome {κ} (Resp : Type κ) : Type κ where
  pub resp : Option Resp
  pub provider_type : Text
  pub provider_name : Text
  pub failover_model : Text
  pub used : Bool
  pub err : Err

-- What a request, its workflow and the orchestrator give the sweep. `done` is `ctx.Err() != nil`;
-- without an authorizer or a gate `allows` or `available` is always true.
pub record Failovers {ℓ κ} (W : Type ℓ) (Resp : Type κ) : Type (ℓ ⊔ κ) where
  pub provider : Option RoutableProvider
  pub workflow_type : Text
  pub workflow_name : Text
  pub done : W → Bool
  pub allows : W → ModelSelector → Bool
  pub available : W → Text → Text → Bool
  pub call : ModelSelector → Text → Text → W → Called W Resp
  pub err_text : Err → Text

module _ {ℓ κ} {W : Type ℓ} {Resp : Type κ} (o : Failovers W Resp) where
  abbrev pub no_outcome : Err → Outcome Resp
  no_outcome err = record {
    resp = none;
    provider_type = [];
    provider_name = [];
    failover_model = [];
    used = false;
    err = err;
  }

  abbrev pub target_name : ModelSelector → Text
  target_name s = resolved_provider_name o.provider s o.workflow_name

  abbrev target_type : ModelSelector → Text
  target_type s = provider_type_for_selector o.provider s o.workflow_type

  -- What the loop does with a target: it leaves, goes on to the next one, or calls it.
  pub data Gate : Type 0 where
    leave skip attempt : Gate

  unfoldable pub gate : W → ModelSelector → Gate
  gate w s =
      if o.done w
      then leave
      else if not (o.allows w s)
      then skip
      else if not (o.available w (target_name s) (qualified_model s))
      then skip
      else attempt

  -- The call of a target.
  abbrev pub called : W → ModelSelector → Called W Resp
  called w s = o.call s (target_type s) (target_name s) w

  -- The record of the call of a target.
  unfoldable pub attempt_of : W → ModelSelector → ProviderAttempt
  attempt_of w s =
      let c = called w s in
      provider_attempt_from_result o.err_text (codes "failover")
        (first_non_empty_string c.provider_type (target_type s)) (target_name s) (qualified_model s)
        c.err

  abbrev pub answer_of : W → ModelSelector → Outcome Resp
  answer_of w s = record {
    resp = some (called w s).resp;
    provider_type = (called w s).provider_type;
    provider_name = target_name s;
    failover_model = qualified_model s;
    used = true;
    err = [];
  }

  -- The loop over the targets, after the last error.
  unfoldable pub sweep :
      List ModelSelector → W → AttemptRecorder → Err → Outcome Resp × (W × AttemptRecorder)
  unfolding gate attempt_of
  sweep [] w log last = (no_outcome last, (w, log))
  sweep (s ∷ rest) w log last =
      let c = called w s in
      let log' = record_provider_attempt (attempt_of w s) log in
      elim (gate w s) [
        | leave ↦ (no_outcome last, (w, log))
        | skip ↦ sweep rest w log last
        | attempt ↦ elim (is_nil c.err) [
          | true ↦ (answer_of w s, (c.world, log'))
          | false ↦ sweep rest c.world log' c.err
        ]
      ]

  -- tryFailoverResponse, of the targets that FailoverSelectors answers.
  unfoldable pub try_failover_response :
      List ModelSelector → Err → W → AttemptRecorder → Outcome Resp × (W × AttemptRecorder)
  unfolding sweep should_attempt_failover
  try_failover_response targets primary_err w log =
      if o.done w
      then (no_outcome primary_err, (w, log))
      else if not (should_attempt_failover primary_err)
      then (no_outcome primary_err, (w, log))
      else sweep targets w log primary_err

  -- executeWithFailoverResponse, after what the primary call has answered and recorded.
  unfoldable pub execute_with_failover_response :
      List ModelSelector
      → Resp
      → Text
      → Text
      → Err
      → W
      → AttemptRecorder
      → Outcome Resp × (W × AttemptRecorder)
  unfolding try_failover_response
  execute_with_failover_response targets resp provider_type provider_name err w log =
      let answer : Outcome Resp = record {
        resp = some resp;
        provider_type = provider_type;
        provider_name = provider_name;
        failover_model = [];
        used = false;
        err = [];
      } in
      if is_nil err then (answer, (w, log)) else try_failover_response targets err w log
