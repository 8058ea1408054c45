-- ===== src/Errors.antt =====
-- internal/core/errors.go: the gateway's error type. A Go error is the chain of errors that
-- Unwrap walks, from the outermost to the root; the chain `[]` is nil. The decoding of a
-- provider's JSON error body (github.com/goccy/go-json) is a parameter.
pub mod Status
mod Tests
use thinroute.Prelude.{
  ℕ, ◌*◌, Bool, true, false, ◌&&◌, List, [], ◌∷◌, ◌++◌, Option, none, some, leb, ltb, ◌==◌,
  if◌then◌else◌, take,
}
use thinroute.Text.{Text, codes, is_empty}

abbrev pub Bytes : Type 0
Bytes = List ℕ

-- ErrorType; a string type of which only these values are ever built.
pub data ErrorType : Type 0 where
  provider_error rate_limit_error invalid_request_error authentication_error not_found_error :
      ErrorType

-- The fields of GatewayError other than Err, which is the rest of the chain, and ResponseHeaders.
pub record GatewayError : Type 0 where
  pub type : ErrorType
  pub message : Text
  pub status_code : ℕ
  pub provider : Text
  pub param : Option Text
  pub code : Option Text
  pub response_body : Bytes

-- One error of a chain; `net_error` is a net.Error with what its Timeout() answers.
pub data Link : Type 0 where
  gateway : GatewayError → Link
  canceled deadline_exceeded : Link
  net_error : Bool → Text → Link
  other : Text → Link

abbrev pub Err : Type 0
Err = List Link

-- err == nil
abbrev pub is_nil : Err → Bool
is_nil [] = true
is_nil (_ ∷ _) = false

-- errors.As(err, &gatewayErr)
unfoldable pub as_gateway : Err → Option GatewayError
as_gateway [] = none
as_gateway (gateway g ∷ _) = some g
as_gateway (canceled ∷ e) = as_gateway e
as_gateway (deadline_exceeded ∷ e) = as_gateway e
as_gateway (net_error _ _ ∷ e) = as_gateway e
as_gateway (other _ ∷ e) = as_gateway e

-- The error that the first GatewayError of the chain wraps.
unfoldable pub gateway_cause : Err → Err
gateway_cause [] = []
gateway_cause (gateway g ∷ e) = e
gateway_cause (canceled ∷ e) = gateway_cause e
gateway_cause (deadline_exceeded ∷ e) = gateway_cause e
gateway_cause (net_error _ _ ∷ e) = gateway_cause e
gateway_cause (other _ ∷ e) = gateway_cause e

abbrev pub is_canceled_link : Link → Bool
is_canceled_link canceled = true
is_canceled_link _ = false

abbrev pub is_deadline_link : Link → Bool
is_deadline_link deadline_exceeded = true
is_deadline_link _ = false

abbrev pub default_status : ErrorType → ℕ
default_status rate_limit_error = 429
default_status invalid_request_error = 400
default_status authentication_error = 401
default_status not_found_error = 404
default_status provider_error = 502

-- HTTPStatusCode
unfoldable pub http_status_code : GatewayError → ℕ
http_status_code e = if e.status_code == 0 then default_status e.type else e.status_code

abbrev new_error : ErrorType → ℕ → Text → Text → GatewayError
new_error type status_code provider message = record {
  type = type;
  message = message;
  status_code = status_code;
  provider = provider;
  param = none;
  code = none;
  response_body = [];
}

unfoldable pub new_provider_error : Text → ℕ → Text → GatewayError
new_provider_error provider status message = new_error provider_error status provider message

unfoldable pub new_invalid_request_error_with_status : ℕ → Text → GatewayError
new_invalid_request_error_with_status status message =
    new_error invalid_request_error status [] message

unfoldable pub new_invalid_request_error : Text → GatewayError
unfolding new_invalid_request_error_with_status
new_invalid_request_error message = new_invalid_request_error_with_status 400 message

unfoldable pub new_not_found_error : Text → GatewayError
new_not_found_error message = new_error not_found_error 404 [] message

-- WithParam, WithCode
abbrev pub with_param : GatewayError → Text → GatewayError
with_param e param = record e { param = some param }

abbrev pub with_code : GatewayError → Text → GatewayError
with_code e code = record e { code = some code }

unfoldable pub new_model_not_found_error : Text → GatewayError
unfolding new_not_found_error
new_model_not_found_error model =
    with_code (new_not_found_error (codes "unsupported model: " ++ model)) (codes "model_not_found")

abbrev pub max_gateway_error_body_bytes : ℕ
max_gateway_error_body_bytes = 64 * 1024

-- captureGatewayErrorBody
unfoldable pub capture_gateway_error_body : Bytes → Bytes
capture_gateway_error_body body = take max_gateway_error_body_bytes body

-- What parseProviderErrorBody finds in a body.
pub record ProviderErrorDetails : Type 0 where
  pub message : Text
  pub param : Text
  pub code : Text

-- The switch of ParseProviderError on the status code.
classify : Text → ℕ → Text → GatewayError
unfolding new_not_found_error new_invalid_request_error_with_status new_provider_error
classify provider status message =
    if status == 401
    then new_error authentication_error 401 provider message
    else if status == 403
    then new_error authentication_error 403 provider message
    else if status == 429
    then new_error rate_limit_error 429 provider message
    else if status == 404
    then record (new_not_found_error message) { provider = provider }
    else if leb 400 status && ltb status 500
    then record (new_invalid_request_error_with_status status message) { provider = provider }
    else if leb 500 status
    then new_provider_error provider status message
    else new_provider_error provider 502 message

abbrev annotate : ProviderErrorDetails → GatewayError → GatewayError
annotate d e =
    let e' = if is_empty d.param then e else with_param e d.param in
    if is_empty d.code then e' else with_code e' d.code

-- `string_of` is the conversion of a body to a string.
module _ (string_of : Bytes → Text) (parse_provider_error_body : Bytes → ProviderErrorDetails) where
  -- ParseProviderError
  unfoldable pub parse_provider_error : Text → ℕ → Bytes → GatewayError
  unfolding classify capture_gateway_error_body
  parse_provider_error provider status body =
      let d = parse_provider_error_body body in
      let message = if is_empty d.message then string_of body else d.message in
      record (annotate d (classify provider status message)) {
        response_body = capture_gateway_error_body body;
      }
