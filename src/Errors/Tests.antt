-- ===== src/Errors/Tests.antt =====
-- Runs of the error classification, and its theorem at a concrete input.
use thinroute.Prelude.{[], length, refl, some, ◌∷◌, ◌≡◌, ◌≤◌}
use thinroute.Errors.{
  http_status_code, Bytes, parse_provider_error, ProviderErrorDetails, not_found_error,
  max_gateway_error_body_bytes,
}
use thinroute.Text.{Text, codes}
use thinroute.Errors.Status.{parse_provider_error-status}

program : Unit {0}
unfolding http_status_code parse_provider_error
program = tt

abbrev string_of : Bytes → Text
string_of b = b

abbrev parse : Bytes → ProviderErrorDetails
parse b = record { message = codes "no such model"; param = []; code = codes "gone" }

error_tests :
    ((parse_provider_error string_of parse (codes "p") 404 []).type ≡ not_found_error)
    × ((parse_provider_error string_of parse (codes "p") 404 []).code ≡ some (codes "gone"))
    × ((parse_provider_error string_of parse (codes "p") 302 []).status_code ≡ 502)
unfolding program
error_tests = (refl, refl, refl)

parse_provider_error-status_example :
    (http_status_code (parse_provider_error string_of parse (codes "p") 503 (1 ∷ [])) ≡ 503)
    × ((parse_provider_error string_of parse (codes "p") 503 (1 ∷ [])).provider ≡ codes "p")
    × (length (parse_provider_error string_of parse (codes "p") 503 (1 ∷ [])).response_body
        ≤ max_gateway_error_body_bytes)
parse_provider_error-status_example =
    parse_provider_error-status string_of parse (codes "p") 503 (1 ∷ [])
