-- ===== src/Cooldown/Tests.antt =====
-- Runs of the cooldown tracker, with whole numbers in the place of float64.
use thinroute.Prelude.{List, [], arith, false, length, refl, true, ℕ, ◌*◌, ◌+◌, ◌∷◌, ◌≡◌, ◌≤◌, ◌⊎◌}
use thinroute.Clock.{Time, second}
use thinroute.Cooldown.{
  CooldownKey, CooldownTracker, record_failure, check, active_count,
  new_cooldown_tracker_with_config, find, live, new_cooldown_tracker, drop_key, key_eq,
  mark_terminal, escalate, entry_of,
}
use thinroute.Text.{codes, text_eq}
use thinroute.Cooldown.Backoff.{record_failure-backoff}
use thinroute.Cooldown.Snapshots.{snapshot, active_count-snapshot}
use thinroute.Cooldown.Terminal.{Call, fails, run, reports, checks, check-mark_terminal, counts}
use thinroute.Cooldown.Whole.{whole}

abbrev key : CooldownKey
key = record { provider_name = codes "groq"; key_index = 0; model = []; scope = codes "key" }

abbrev fresh : CooldownTracker whole
fresh = new_cooldown_tracker whole

abbrev day : Time
day = 86400 * second

abbrev failed_once : CooldownTracker whole
unfolding record_failure new_cooldown_tracker_with_config find drop_key key_eq text_eq
failed_once = (record_failure whole key (400 * second) day fresh).1

not_above :
    (x : ℕ)
    → whole.gt x (whole.of_duration (300 * second)) ≡ false
    → whole.to_duration x ≤ 300 * second
not_above x h = ground arith

-- A second failure long after the first: 800 seconds, cut down to 300.
second_failure :
    (record_failure whole key (400 * second) (2 * day) failed_once).0.cooling_until
    ≡ 2 * day + 300 * second
unfolding record_failure find drop_key key_eq text_eq failed_once escalate
second_failure = refl

record_failure-backoff_example :
    let until = (record_failure whole key (400 * second) (2 * day) failed_once).0.cooling_until in
    let failures = (entry_of (find key failed_once.entries)).failures in
    ((failures ≡ 0) × (until ≡ 2 * day + 400 * second))
    ⊎ ((1 ≤ failures) × (until ≤ 2 * day + failed_once.max_cooldown))
unfolding record_failure new_cooldown_tracker_with_config find drop_key key_eq text_eq
record_failure-backoff_example =
    record_failure-backoff whole key (400 * second) (2 * day) failed_once (omega arith) not_above
      refl refl (omega arith)

-- The calls between the marking of a key and its check.
abbrev calls : List (Call whole)
calls =
    fails key (5 * second) day
    ∷ reports (codes "groq") 0 [] 429 0 [] (day + 1)
    ∷ checks key (day + 2)
    ∷ counts (2 * day)
    ∷ []

check-mark_terminal_example :
    let c = check whole key (3 * day) (run whole calls (mark_terminal whole key day fresh)) in
    (c.0.active ≡ true) × (c.0.terminal ≡ true)
check-mark_terminal_example = check-mark_terminal whole key day (3 * day) calls fresh

active_count-snapshot_example :
    let c = active_count whole (day + 1) failed_once in
    (c.0 ≡ length (snapshot whole (day + 1) failed_once))
    × (snapshot whole (day + 1) c.1 ≡ snapshot whole (day + 1) failed_once)
active_count-snapshot_example = active_count-snapshot whole (day + 1) failed_once

counted_once : (active_count whole (day + 1) failed_once).0 ≡ 1
unfolding active_count live failed_once record_failure new_cooldown_tracker_with_config find
    drop_key key_eq text_eq
counted_once = refl
