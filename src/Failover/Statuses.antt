-- ===== src/Failover/Statuses.antt =====
-- Which provider answers start a failover, whatever they say.
use thinroute.Errors.Status.{parse_provider_error-status}
use thinroute.Text.{Text}
use thinroute.Failover.Kinds.{fails_over, should_attempt_failover}
use thinroute.Errors.{as_gateway, Bytes, ProviderErrorDetails, Err, gateway, parse_provider_error}
use thinroute.Prelude.{arith, true, ℕ, ◌<◌, ◌∷◌, ◌≡◌, ◌≤◌, ◌⊎◌}

-- A rate limit, or any status that is not one of the client's errors, starts a failover, whatever
-- the body of the answer is, and whatever error the classified one wraps.
pub parsed-should_attempt_failover :
    (string_of : Bytes → Text) (parse : Bytes → ProviderErrorDetails) (provider : Text) (status : ℕ)
    (body : Bytes) (cause : Err) (retryable : (status ≡ 429) ⊎ ((status < 400) ⊎ (500 ≤ status)))
    → should_attempt_failover
        (gateway (parse_provider_error string_of parse provider status body) ∷ cause)
      ≡ true
unfolding should_attempt_failover as_gateway fails_over
parsed-should_attempt_failover string_of parse provider status body cause retryable =
    ground (arith, (parse_provider_error-status string_of parse provider status body).0)
