-- ===== src/Attempts.antt =====
-- internal/gateway/attempts.go: the record of the provider calls of one request. The recorder's
-- mutex makes each recording one step. The start, the duration and the headers of an attempt are
-- left out. The text of an error that is no GatewayError is a parameter.
pub mod Added
use thinroute.Text.{Text, trim_space, codes, to_lower, is_empty, text_eq}
use thinroute.Errors.{
  ErrorType, Err, Bytes, GatewayError, is_nil, provider_error, as_gateway, http_status_code,
  rate_limit_error, invalid_request_error, authentication_error, not_found_error,
}
use thinroute.Prelude.{
  Bool, List, Option, [], if◌then◌else◌, length, none, some, ℕ, ◌++◌, ◌+◌, ◌==◌, ◌||◌, ◌∷◌,
}

-- ErrorType, as the string it is.
abbrev type_text : ErrorType → Text
type_text provider_error = codes "provider_error"
type_text rate_limit_error = codes "rate_limit_error"
type_text invalid_request_error = codes "invalid_request_error"
type_text authentication_error = codes "authentication_error"
type_text not_found_error = codes "not_found_error"

pub record ProviderAttempt : Type 0 where
  pub seq : ℕ
  pub kind : Text
  pub provider_type : Text
  pub provider_name : Text
  pub model : Text
  pub status_code : ℕ
  pub success : Bool
  pub error_type : Text
  pub error_code : Text
  pub error_message : Text
  pub response_body : Bytes

-- The recorder, and how often the observer of failures has been called.
pub record AttemptRecorder : Type 0 where
  pub attempts : List ProviderAttempt
  pub observed : ℕ

-- normalizeProviderAttemptKind
pub normalize_provider_attempt_kind : Text → Text
normalize_provider_attempt_kind kind =
    let k = to_lower (trim_space kind) in
    if text_eq k (codes "primary") || text_eq k (codes "failover") || text_eq k (codes "retry")
    then k
    else []

-- recordProviderAttempt, with a recorder and an observer in the context.
unfoldable pub record_provider_attempt : ProviderAttempt → AttemptRecorder → AttemptRecorder
unfolding normalize_provider_attempt_kind
record_provider_attempt a r =
    let kind = normalize_provider_attempt_kind a.kind in
    let recorded = record a {
      seq = if a.seq == 0 then length r.attempts + 1 else a.seq;
      kind = kind;
      provider_type = trim_space a.provider_type;
      provider_name = trim_space a.provider_name;
      model = trim_space a.model;
      error_type = trim_space a.error_type;
      error_code = trim_space a.error_code;
      error_message = trim_space a.error_message;
    } in
    if is_empty kind then r else record r {
      attempts = r.attempts ++ recorded ∷ [];
      observed = if a.success then r.observed else r.observed + 1;
    }

abbrev code_of : Option Text → Text
code_of none = []
code_of (some code) = code

module _ (err_text : Err → Text) where
  abbrev failed_by : ProviderAttempt → Err → Option GatewayError → ProviderAttempt
  failed_by a err none = record a {
    status_code = 500;
    error_type = type_text provider_error;
    error_message = err_text err;
  }
  failed_by a err (some e) = record a {
    status_code = http_status_code e;
    error_type = type_text e.type;
    error_message = e.message;
    error_code = code_of e.code;
    response_body = e.response_body;
  }

  -- providerAttemptFromResult
  unfoldable pub provider_attempt_from_result : Text → Text → Text → Text → Err → ProviderAttempt
  provider_attempt_from_result kind provider_type provider_name model err =
      let a : ProviderAttempt = record {
        seq = 0;
        kind = kind;
        provider_type = provider_type;
        provider_name = provider_name;
        model = model;
        status_code = 0;
        success = is_nil err;
        error_type = [];
        error_code = [];
        error_message = [];
        response_body = [];
      } in
      if is_nil err then record a { status_code = 200 } else failed_by a err (as_gateway err)
