-- ===== src/Cooldown/StatusCode.antt =====
-- internal/providers/cooldown.go: RecordFailureFromStatusCode, which picks the key and the length
-- of a cooldown from the status code of an answer.
use thinroute.Prelude.{
  Bool, List, [], any, false, if◌then◌else◌, leb, not, true, ℕ, ◌&&◌, ◌*◌, ◌+◌, ◌==◌, ◌||◌, ◌∷◌,
}
use thinroute.Clock.{Duration, Time, second}
use thinroute.Cooldown.{Float, CooldownKey, CooldownTracker, mark_terminal, record_failure}
use thinroute.Text.{Text, codes, is_empty}

-- The comparison of containsAny, which lowers ASCII letters on both sides.
lower : ℕ → ℕ
lower c = if leb b'A' c && leb c b'Z' then c + 32 else c

starts : Text → Text → Bool
unfolding lower
starts s [] = true
starts [] (_ ∷ _) = false
starts (a ∷ s) (b ∷ t) = (lower a == lower b) && starts s t

unfoldable pub contains_any : Text → Text → Bool
unfolding starts
contains_any [] t = starts [] t
contains_any (a ∷ s) t = starts (a ∷ s) t || contains_any s t

abbrev terminals : List Text
terminals =
    codes "banned"
    ∷ codes "expired"
    ∷ codes "credits_exhausted"
    ∷ codes "insufficient_quota"
    ∷ codes "account_deactivated"
    ∷ codes "invalid_api_key"
    ∷ []

unfoldable pub is_terminal_error : Text → Bool
unfolding contains_any
is_terminal_error msg = any (λ t. not (is_empty msg) && contains_any msg t) terminals

module _ (fl : Float) where
  abbrev pub key_scope : Text → ℕ → CooldownKey
  key_scope provider index = record {
    provider_name = provider;
    key_index = index;
    model = [];
    scope = codes "key";
  }

  abbrev pub model_scope : Text → ℕ → Text → CooldownKey
  model_scope provider index model = record {
    provider_name = provider;
    key_index = index;
    model = model;
    scope = codes "model";
  }

  -- RecordFailureFromStatusCode; a retry time that is not positive is `0`.
  unfoldable pub record_failure_from_status_code :
      (provider_name : Text) (key_index : ℕ) (model : Text) (status_code : ℕ)
      (retry_after : Duration) (error_message : Text) (now : Time)
      → CooldownTracker fl
      → CooldownTracker fl
  unfolding is_terminal_error
  record_failure_from_status_code provider index model status retry_after msg now ct =
      if (status == 401) || (status == 403)
      then (if is_terminal_error msg
          then mark_terminal fl (key_scope provider index) now ct
          else (record_failure fl (key_scope provider index) (5 * second) now ct).1)
      else if status == 429
      then (record_failure fl (key_scope provider index)
          (if retry_after == 0 then 5 * second else retry_after) now ct).1
      else if (status == 404) && not (is_empty model)
      then (record_failure fl (model_scope provider index model) (30 * second) now ct).1
      else ct
