-- ===== src/Errors/Status.antt =====
-- The status code that an error carries to the client.
use thinroute.Prelude.{ℕ, ◌≤◌, ◌≡◌, arith, length, length-take, leb, if◌then◌else◌, ◌∙◌}
use thinroute.Text.{Text, is_empty}
use thinroute.Errors.{
  Bytes, GatewayError, ProviderErrorDetails, classify, annotate, http_status_code,
  parse_provider_error, max_gateway_error_body_bytes, capture_gateway_error_body,
}

capture-length :
    (body : Bytes) → length (capture_gateway_error_body body) ≤ max_gateway_error_body_bytes
unfolding capture_gateway_error_body
capture-length body = omega (arith, length-take {0} max_gateway_error_body_bytes body)

classify-status :
    (provider : Text) (status : ℕ) (message : Text)
    → ((classify provider status message).status_code ≡ (if leb 400 status then status else 502))
      × ((classify provider status message).provider ≡ provider)
unfolding classify
classify-status provider status message = ground arith

annotate-status :
    (d : ProviderErrorDetails) (e : GatewayError)
    → ((annotate d e).status_code ≡ e.status_code) × ((annotate d e).provider ≡ e.provider)
annotate-status d e = ground arith

known_status :
    (e : GatewayError) (status : ℕ)
    → e.status_code ≡ (if leb 400 status then status else 502)
    → http_status_code e ≡ (if leb 400 status then status else 502)
unfolding http_status_code
known_status e status h = ground arith

module _ (string_of : Bytes → Text) (parse : Bytes → ProviderErrorDetails) where
  -- A provider's error answers with the provider's status code if that is 400 or above and with a
  -- 502 otherwise, names the provider, and keeps at most 64 KiB of the body.
  pub parse_provider_error-status :
      (provider : Text) (status : ℕ) (body : Bytes)
      → (http_status_code (parse_provider_error string_of parse provider status body)
          ≡ (if leb 400 status then status else 502))
        × ((parse_provider_error string_of parse provider status body).provider ≡ provider)
        × (length (parse_provider_error string_of parse provider status body).response_body
            ≤ max_gateway_error_body_bytes)
  unfolding parse_provider_error
  parse_provider_error-status provider status body =
      let d = parse body in
      let message : Text = if is_empty d.message then string_of body else d.message in
      let e = classify provider status message in
      let (code, named) = classify-status provider status message in
      let (code', named') = annotate-status d e in
      (
        known_status (parse_provider_error string_of parse provider status body) status
            (code' ∙ code),
        named' ∙ named,
        capture-length body,
      )
