-- ===== src/Router/Tests.antt =====
-- Requests for models under cooldowns, with whole numbers in the place of float64.
use thinroute.Cooldown.Backoff.{first_entry}
use thinroute.Router.Lockout.{Spared, found, route-lockout}
use thinroute.Router.Terminal.{answering, served-never_terminal}
use thinroute.Cooldown.Whole.{whole}
use thinroute.Router.{route_during, Clock, route_resolved_model_call, model_key}
use thinroute.Text.{codes, text_eq}
use thinroute.Cooldown.StatusCode.{is_terminal_error, contains_any, record_failure_from_status_code}
use thinroute.Cooldown.{
  CooldownKey, check, CooldownTracker, new_cooldown_tracker_with_config, record_failure,
  new_cooldown_tracker, default_cooldown_config, find, drop_key, key_eq, put,
}
use thinroute.Errors.{
  gateway_cause, Err, Bytes, ProviderErrorDetails, gateway, new_provider_error, as_gateway,
}
use thinroute.Cooldown.Keys.{find-put}
use thinroute.Router.Cooling.{Round, served, routed, served-called}
use thinroute.Clock.{Time, second}
use thinroute.Selector.{ModelSelector}
use thinroute.Prelude.{
  List, Option, [], arith, false, inr, none, refl, some, true, ℕ, ◌*◌, ◌+◌, ◌∷◌, ◌≡◌, ◌⊎◌,
}

abbrev selector : ModelSelector
selector = record { model = codes "gpt-4o"; provider = codes "openai" }

-- A provider that answers each call by a status code.
abbrev answer : ℕ → ModelSelector → Option ℕ × Err
answer status s = (none, gateway (new_provider_error s.provider status []) ∷ [])

abbrev clock_at : Time → Clock
clock_at t = record { checked = t; model_checked = t + 1; failed = t + 2 }

abbrev hour : Time
hour = 3600 * second

-- The provider refuses its key, then is over its limit, again and again.
abbrev rounds : List (Round whole answer (λ m. m) (λ p t. p) (λ m p t. m) (λ e. []))
rounds =
    (inr (429, selector), clock_at hour)
    ∷ (inr (401, selector), clock_at (hour + 10))
    ∷ (inr (403, selector), clock_at (hour + 20))
    ∷ []

served-called_example :
    (routed whole answer
      (λ m. m)
      (λ p t. p)
      (λ m p t. m)
      (λ e. [])
      (inr (429, selector), clock_at (hour + 30))
      (served whole answer
        (λ m. m)
        (λ p t. p)
        (λ m p t. m)
        (λ e. [])
        rounds
        (new_cooldown_tracker_with_config whole (default_cooldown_config whole)))).0.called
    ≡ true
unfolding served route_during route_resolved_model_call check record_failure_from_status_code
    record_failure find drop_key key_eq text_eq as_gateway gateway_cause is_terminal_error
    new_provider_error new_cooldown_tracker_with_config
served-called_example =
    served-called whole answer (λ m. m) (λ p t. p) (λ m p t. m) (λ e. []) rounds
      (default_cooldown_config whole) 429 selector (clock_at (hour + 30)) refl

-- A provider that does not know the model, and a tracker in which the lockout has just ended.
abbrev unknown_before : CooldownTracker whole
unfolding served route_during route_resolved_model_call
unknown_before =
    served whole answer (λ m. m) (λ p t. p) (λ m p t. m) (λ e. [])
      ((inr (404, selector), clock_at hour) ∷ []) (new_cooldown_tracker whole)

-- During the call another model of the provider is answered by 404 for the first time.
abbrev other_model : CooldownKey
other_model = model_key (record { model = codes "o3"; provider = codes "openai" })

abbrev other_404 : CooldownTracker whole → CooldownTracker whole
other_404 ct = record ct {
  entries = put other_model (first_entry whole (30 * second) (2 * hour + 1)) ct.entries;
}

other_404-Spared : Spared whole answer (λ m. m) (λ p t. p) (λ m p t. m) (λ e. []) other_404 selector
unfolding key_eq text_eq
other_404-Spared ct = (
  find-put other_model (model_key selector) (first_entry whole (30 * second) (2 * hour + 1))
      ct.entries,
  refl,
)

route-lockout_example :
    found whole
      (model_key selector)
      (route_during whole answer
        (λ m. m)
        (λ p t. p)
        (λ m p t. m)
        (λ e. [])
        other_404
        (inr (404, selector))
        (clock_at (2 * hour))
        (some unknown_before)).1
    ≡ some (first_entry whole (30 * second) (2 * hour + 2))
unfolding served route_during route_resolved_model_call check record_failure_from_status_code
    record_failure find drop_key key_eq text_eq as_gateway gateway_cause is_terminal_error
    new_provider_error new_cooldown_tracker_with_config unknown_before
route-lockout_example =
    route-lockout whole answer (λ m. m) (λ p t. p) (λ m p t. m) (λ e. []) other_404 404 selector
      (clock_at (2 * hour)) unknown_before (new_provider_error selector.provider 404 []) refl refl
      refl other_404-Spared (omega arith) refl

-- A provider that refuses its key for good, by a status code and a body.
abbrev refusing : ℕ → ModelSelector → ℕ ⊎ (ℕ × Bytes)
refusing status s = inr (status, codes "invalid_api_key")

abbrev no_details : Bytes → ProviderErrorDetails
no_details b = record { message = []; param = []; code = [] }

abbrev refused_key : CooldownKey
refused_key = record {
  provider_name = codes "openai";
  key_index = 0;
  model = [];
  scope = codes "key";
}

-- The message itself is one of a terminal error.
message_terminal : is_terminal_error (codes "invalid_api_key") ≡ true
unfolding is_terminal_error contains_any
message_terminal = refl

served-never_terminal_example :
    (check whole refused_key (hour + 1) (
      served whole
        (answering whole (λ b. b) no_details refusing)
        (λ m. m)
        (λ p t. p)
        (λ m p t. m)
        (λ e. [])
        ((inr (401, selector), clock_at hour) ∷ [])
        (new_cooldown_tracker_with_config whole (default_cooldown_config whole)))).0.terminal
    ≡ false
served-never_terminal_example =
    served-never_terminal whole (λ b. b) no_details refusing (λ m. m) (λ p t. p) (λ m p t. m)
      (λ e. []) ((inr (401, selector), clock_at hour) ∷ []) (default_cooldown_config whole)
      refused_key (hour + 1)
