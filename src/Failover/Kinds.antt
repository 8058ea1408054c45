-- ===== src/Failover/Kinds.antt =====
-- internal/gateway/failover.go: ShouldAttemptFailover, which errors start a failover.
use thinroute.Errors.{GatewayError, Err, http_status_code, as_gateway}
use thinroute.Text.{Text, codes, contains, to_lower, trim_space, is_empty}
use thinroute.Prelude.{
  Bool, List, Option, [], any, false, if◌then◌else◌, leb, none, not, some, true, ◌&&◌, ◌==◌, ◌||◌,
  ◌∷◌,
}

-- The fragments that a message about a model is searched for.
abbrev model_fragments : List Text
model_fragments =
    codes "not found"
    ∷ codes "does not exist"
    ∷ codes "unsupported"
    ∷ codes "unavailable"
    ∷ codes "not available"
    ∷ codes "deprecated"
    ∷ codes "retired"
    ∷ codes "disabled"
    ∷ []

-- The fragments that a message of a 404 is searched for.
abbrev not_found_fragments : List Text
not_found_fragments =
    codes "unsupported"
    ∷ codes "unavailable"
    ∷ codes "not available"
    ∷ codes "deprecated"
    ∷ codes "retired"
    ∷ codes "disabled"
    ∷ []

abbrev mentions_any : Text → List Text → Bool
mentions_any message fragments = any (λ f. contains message f) fragments

abbrev code_text : Option Text → Text
code_text none = []
code_text (some code) = to_lower (trim_space code)

-- ShouldAttemptFailover, of a GatewayError.
unfoldable pub fails_over : GatewayError → Bool
fails_over e =
    let status = http_status_code e in
    let code = code_text e.code in
    let message = to_lower (trim_space e.message) in
    if leb 500 status || (status == 429)
    then true
    else if not (is_empty code)
        && contains code (codes "model")
        && (contains code (codes "not_found")
            || contains code (codes "unsupported")
            || contains code (codes "unavailable"))
    then true
    else if contains message (codes "model") && mentions_any message model_fragments
    then true
    else (status == 404) && mentions_any message not_found_fragments

abbrev fails_over_at : Option GatewayError → Bool
fails_over_at none = false
fails_over_at (some e) = fails_over e

-- ShouldAttemptFailover
unfoldable pub should_attempt_failover : Err → Bool
should_attempt_failover err = fails_over_at (as_gateway err)
