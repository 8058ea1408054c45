-- ===== src/Failover/Tests.antt =====
-- Runs of the failover.
use thinroute.Prelude.{
  List, String, [], false, if◌then◌else◌, inl, none, not, refl, true, ℕ, ◌+◌, ◌==◌, ◌∷◌, ◌≡◌,
}
use thinroute.Attempts.{AttemptRecorder, record_provider_attempt, provider_attempt_from_result}
use thinroute.Errors.{
  Err, Bytes, gateway, ProviderErrorDetails, new_provider_error, parse_provider_error, as_gateway,
  http_status_code,
}
use thinroute.Failover.{try_failover_response, Failovers, sweep, gate, Called, attempt_of}
use thinroute.Selector.{ModelSelector, qualified_model}
use thinroute.Text.{codes, Text, text_eq, to_lower, trim_space}
use thinroute.Failover.Admitted.{Swept, open_targets, sweep-Swept}
use thinroute.Failover.Kinds.{fails_over, should_attempt_failover}
use thinroute.Failover.Statuses.{parsed-should_attempt_failover}
use thinroute.Failover.Sweep.{Ended, try_failover-Ended}

program : Unit {0}
unfolding try_failover_response should_attempt_failover sweep gate fails_over as_gateway
    http_status_code new_provider_error text_eq qualified_model record_provider_attempt to_lower
    trim_space provider_attempt_from_result attempt_of
program = tt

abbrev overloaded : Err
overloaded = gateway (new_provider_error (codes "openai") 503 (codes "overloaded")) ∷ []

abbrev target : String → String → ModelSelector
target provider model = record { model = codes model; provider = codes provider }

-- The world counts the calls; the third one is answered.
abbrev call : ModelSelector → Text → Text → ℕ → Called ℕ ℕ
call s type name w = record {
  resp = w;
  provider_type = [];
  err = if w == 2 then [] else overloaded;
  world = w + 1;
}

abbrev failovers : Failovers ℕ ℕ
failovers = record {
  provider = none;
  workflow_type = codes "openai";
  workflow_name = codes "openai";
  done = λ w. false;
  allows = λ w s. not (text_eq s.provider (codes "banned"));
  available = λ w n m. true;
  call = call;
  err_text = λ e. [];
}

abbrev targets : List ModelSelector
targets =
    target "groq" "llama"
    ∷ target "banned" "llama"
    ∷ target "mistral" "large"
    ∷ target "xai" "grok"
    ∷ target "gemini" "pro"
    ∷ []

abbrev start : AttemptRecorder
start = record { attempts = []; observed = 0 }

-- Two targets fail, the third one answers; the one that is not allowed is left out.
used_third :
    (try_failover_response failovers targets overloaded 0 start).0.failover_model ≡ codes "xai/grok"
unfolding program
used_third = refl

observed_twice : (try_failover_response failovers targets overloaded 0 start).1.1.observed ≡ 2
unfolding program
observed_twice = refl

try_failover-Ended_example :
    Ended failovers targets overloaded 0 start
      (try_failover_response failovers targets overloaded 0 start)
try_failover-Ended_example = try_failover-Ended failovers targets overloaded 0 start refl

sweep-Swept_example :
    Swept failovers
      (λ s. not (text_eq s.provider (codes "banned")))
      (λ n m. true)
      0
      start
      (open_targets failovers
        (λ s. not (text_eq s.provider (codes "banned")))
        (λ n m. true)
        targets)
      (sweep failovers targets 0 start overloaded)
sweep-Swept_example =
    sweep-Swept failovers (λ s. not (text_eq s.provider (codes "banned"))) (λ n m. true) (λ w. refl)
      (λ w s. refl) (λ w n m. refl) targets 0 start overloaded

abbrev parse_body : Bytes → ProviderErrorDetails
parse_body b = record { message = codes "slow down"; param = []; code = [] }

parsed-should_attempt_failover_example :
    should_attempt_failover
      (gateway (parse_provider_error (λ b. b) parse_body (codes "openai") 429 []) ∷ [])
    ≡ true
parsed-should_attempt_failover_example =
    parsed-should_attempt_failover (λ b. b) parse_body (codes "openai") 429 [] [] (inl refl)
