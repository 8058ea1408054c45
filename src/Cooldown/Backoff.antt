-- ===== src/Cooldown/Backoff.antt =====
-- The length of a cooldown after repeated failures.
use thinroute.Prelude.{
  none, some, arith, false, inl, inr, true, zero-or_pos, ℕ, ◌+◌, ◌-◌, ◌≡◌, ◌≤◌, ◌⊎◌,
}
use thinroute.Clock.{Duration, Time, sub_time}
use thinroute.Cooldown.{
  Float, backoff, record_entry, record_failure, CooldownTracker, CooldownEntry, CooldownKey,
  escalate, entry_of, find,
}
use thinroute.Cooldown.Keys.{find-put, key_eq_iff}

module _ (fl : Float) where
  open fl use {F, of_duration, to_duration, mul, gt, positive}

  backoff_capped :
      (ct : CooldownTracker fl) (n : ℕ) (d : Duration)
      (kept : to_duration (of_duration ct.max_cooldown) ≤ ct.max_cooldown)
      (below : (x : F)
        → gt x (of_duration ct.max_cooldown) ≡ false
        → to_duration x ≤ ct.max_cooldown)
      (grows : positive ct.backoff_factor ≡ true)
      → 1 ≤ n
      → backoff fl ct (n + 1) d ≤ ct.max_cooldown
  unfolding backoff
  backoff_capped ct n d kept below grows h =
      ground (arith, below (escalate fl (n + 1 - 1) ct.backoff_factor (of_duration d)))

  pub backoff_first :
      (ct : CooldownTracker fl) (d : Duration) → backoff fl ct 1 d ≡ to_duration (of_duration d)
  unfolding backoff
  backoff_first ct d = ground arith

  record_entry_until :
      (e : CooldownEntry) (key : CooldownKey) (d : Duration) (now : Time) (ct : CooldownTracker fl)
      → e.terminal ≡ false
      → ct.anti_herd_window ≤ sub_time now e.last_failure
      → (record_entry fl e key d now ct).0.cooling_until ≡ now + backoff fl ct (e.failures + 1) d
  unfolding record_entry
  record_entry_until e key d now ct dead herd = ground arith

  -- The entry of a key that fails for the first time.
  abbrev pub first_entry : Duration → Time → CooldownEntry
  first_entry d now = record {
    until = now + to_duration (of_duration d);
    failures = 1;
    last_failure = now;
    terminal = false;
  }

  pub record_failure-first :
      (k : CooldownKey) (d : Duration) (now : Time) (ct : CooldownTracker fl)
      → find k ct.entries ≡ none
      → ct.anti_herd_window ≤ sub_time now 0
      → find k (record_failure fl k d now ct).1.entries ≡ some (first_entry d now)
  unfolding record_failure record_entry
  record_failure-first k d now ct h apart = rw h (
      ground
        (arith, find-put k k (first_entry d now) ct.entries, key_eq_iff k k, backoff_first ct d))

  -- Outside of the herd window, a failure of a key that is not terminal starts a cooldown from
  -- now on. Where the key has failed before, the cooldown is at most the configured maximum,
  -- whatever duration is asked for; where it has not, it is the duration asked for, as float64
  -- converts it, which the maximum does not bound. Conditions: the backoff factor is positive, the
  -- conversion to float64 and back does not enlarge the maximum, and a number that is not greater
  -- than the maximum converts to a duration that is at most the maximum.
  pub record_failure-backoff :
      (key : CooldownKey) (d : Duration) (now : Time) (ct : CooldownTracker fl)
      (kept : to_duration (of_duration ct.max_cooldown) ≤ ct.max_cooldown)
      (below : (x : F)
        → gt x (of_duration ct.max_cooldown) ≡ false
        → to_duration x ≤ ct.max_cooldown)
      (grows : positive ct.backoff_factor ≡ true)
      (alive : (entry_of (find key ct.entries)).terminal ≡ false)
      (apart : ct.anti_herd_window ≤ sub_time now (entry_of (find key ct.entries)).last_failure)
      → let until = (record_failure fl key d now ct).0.cooling_until in
        let failures = (entry_of (find key ct.entries)).failures in
        ((failures ≡ 0) × (until ≡ now + to_duration (of_duration d)))
        ⊎ ((1 ≤ failures) × (until ≤ now + ct.max_cooldown))
  unfolding record_failure
  record_failure-backoff key d now ct kept below grows alive apart =
      let e = entry_of (find key ct.entries) in
      let until = record_entry_until e key d now ct alive apart in
      elim (zero-or_pos e.failures) [
        | inl none_before ↦ inl (none_before, ground (arith, until, backoff_first ct d))
        | inr some_before ↦ inr (
          some_before,
          ground (arith, until, backoff_capped ct e.failures d kept below grows some_before),
        )
      ]
