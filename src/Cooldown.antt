-- ===== src/Cooldown.antt =====
-- internal/providers/cooldown.go: the cooldowns of provider keys and models. The methods hold the
-- mutex from start to end; the clock's reading is an argument. The backoff is computed in float64:
-- the type and its operations are the parameter `Float`. The counter of failures is left
-- unbounded. A map with struct keys is a list with one entry for a key.
pub mod Keys
pub mod Terminal
pub mod StatusCode
pub mod Snapshots
pub mod Backoff
pub mod Whole
mod Tests
use thinroute.Clock.{Time, Duration, second, before, after, sub_time}
use thinroute.Text.{Text, text_eq}
use thinroute.Prelude.{
  Bool, List, Option, [], false, if◌then◌else◌, length, ltb, none, some, suc, true, zero, ℕ, ◌&&◌,
  ◌*◌, ◌+◌, ◌-◌, ◌==◌, ◌||◌, ◌∷◌,
}

pub record CooldownKey : Type 0 where
  pub provider_name : Text
  pub key_index : ℕ
  pub model : Text
  pub scope : Text

pub record CooldownStatus : Type 0 where
  pub cooling_until : Time
  pub active : Bool
  pub terminal : Bool

pub record CooldownEntry : Type 0 where
  pub until : Time
  pub failures : ℕ
  pub last_failure : Time
  pub terminal : Bool

-- float64, as far as the backoff uses it, without NaN: the backoff only multiplies numbers that
-- are not negative by a positive factor. `of_duration` and `to_duration` are the conversions, also
-- of a constant.
pub record Float : Type 1 where
  pub F : Type 0
  pub of_duration : Duration → F
  pub to_duration : F → Duration
  pub mul : F → F → F
  pub gt : F → F → Bool
  pub positive : F → Bool

abbrev pub Entries : Type 0
Entries = List (CooldownKey × CooldownEntry)

unfoldable pub key_eq : CooldownKey → CooldownKey → Bool
key_eq a b =
    text_eq a.provider_name b.provider_name
    && (a.key_index == b.key_index)
    && text_eq a.model b.model
    && text_eq a.scope b.scope

unfoldable pub find : CooldownKey → Entries → Option CooldownEntry
find k [] = none
find k ((j, e) ∷ m) = if key_eq j k then some e else find k m

-- delete(m, k)
unfoldable pub drop_key : CooldownKey → Entries → Entries
drop_key k [] = []
drop_key k ((j, e) ∷ m) = if key_eq j k then drop_key k m else (j, e) ∷ drop_key k m

-- m[k] = e
abbrev pub put : CooldownKey → CooldownEntry → Entries → Entries
put k e m = (k, e) ∷ drop_key k m

abbrev pub idle : CooldownStatus
idle = record { cooling_until = 0; active = false; terminal = false }

abbrev cooling : Time → CooldownStatus
cooling until = record { cooling_until = until; active = true; terminal = false }

abbrev banned : Time → CooldownStatus
banned until = record { cooling_until = until; active = true; terminal = true }

abbrev pub blank : CooldownEntry
blank = record { until = 0; failures = 0; last_failure = 0; terminal = false }

abbrev pub entry_of : Option CooldownEntry → CooldownEntry
entry_of none = blank
entry_of (some e) = e

abbrev pub is_live : CooldownEntry → Time → Bool
is_live e now = e.terminal || before now e.until

-- The entries that ActiveCount keeps.
unfoldable pub live : Entries → Time → Entries
live [] now = []
live ((k, e) ∷ m) now = let rest = live m now in if is_live e now then (k, e) ∷ rest else rest

abbrev pub year : Duration
year = 365 * 24 * 3600 * 1_000_000_000

module _ (fl : Float) where
  open fl use {F, of_duration, to_duration, mul, gt, positive}

  pub record CooldownConfig : Type 0 where
    pub base_cooldown : Duration
    pub max_cooldown : Duration
    pub backoff_factor : F
    pub anti_herd_window : Duration

  -- DefaultCooldownConfig
  abbrev pub default_cooldown_config : CooldownConfig
  default_cooldown_config = record {
    base_cooldown = 5 * second;
    max_cooldown = 300 * second;
    backoff_factor = of_duration 2;
    anti_herd_window = 5 * second;
  }

  pub record CooldownTracker : Type 0 where
    pub entries : Entries
    pub base_cooldown : Duration
    pub max_cooldown : Duration
    pub backoff_factor : F
    pub anti_herd_window : Duration

  -- NewCooldownTrackerWithConfig
  unfoldable pub new_cooldown_tracker_with_config : CooldownConfig → CooldownTracker
  new_cooldown_tracker_with_config cfg = record {
    entries = [];
    base_cooldown = cfg.base_cooldown;
    max_cooldown = cfg.max_cooldown;
    backoff_factor = cfg.backoff_factor;
    anti_herd_window = cfg.anti_herd_window;
  }

  -- NewCooldownTracker
  abbrev pub new_cooldown_tracker : CooldownTracker
  new_cooldown_tracker = new_cooldown_tracker_with_config default_cooldown_config

  -- Check, at the entry that the map has.
  check_entry :
      Option CooldownEntry → CooldownKey → Time → CooldownTracker → CooldownStatus × CooldownTracker
  check_entry none key now ct = (idle, ct)
  check_entry (some e) key now ct =
      if e.terminal
      then (banned e.until, ct)
      else if before now e.until
      then (cooling e.until, ct)
      else (idle, record ct { entries = drop_key key ct.entries })

  -- Check
  unfoldable pub check : CooldownKey → Time → CooldownTracker → CooldownStatus × CooldownTracker
  unfolding check_entry
  check key now ct = check_entry (find key ct.entries) key now ct

  -- The loop `for i := 1; i < e.failures; i++`, with so many rounds left.
  pub escalate : ℕ → F → F → F
  escalate zero factor computed = computed
  escalate (suc n) factor computed = escalate n factor (mul computed factor)

  -- The length of the cooldown after so many failures.
  unfoldable pub backoff : CooldownTracker → ℕ → Duration → Duration
  backoff ct failures duration =
      let computed = of_duration duration in
      let grown = escalate (failures - 1) ct.backoff_factor computed in
      let cap = of_duration ct.max_cooldown in
      to_duration (
        if positive ct.backoff_factor && ltb 1 failures
        then (if gt grown cap then cap else grown)
        else computed)

  -- RecordFailure, at the entry, which is a blank one where the map has none.
  pub record_entry :
      CooldownEntry
      → CooldownKey
      → Duration
      → Time
      → CooldownTracker
      → CooldownStatus × CooldownTracker
  record_entry e key duration now ct =
      let refreshed = if after now e.until then record e { until = now + duration } else e in
      let failures = e.failures + 1 in
      let until = now + backoff ct failures duration in
      let failed = record e { failures = failures; last_failure = now; until = until } in
      if e.terminal
      then (banned e.until, ct)
      else if ltb (sub_time now e.last_failure) ct.anti_herd_window
      then (cooling refreshed.until, record ct { entries = put key refreshed ct.entries })
      else (cooling until, record ct { entries = put key failed ct.entries })

  -- RecordFailure
  unfoldable pub record_failure :
      CooldownKey → Duration → Time → CooldownTracker → CooldownStatus × CooldownTracker
  unfolding record_entry backoff
  record_failure key duration now ct =
      record_entry (entry_of (find key ct.entries)) key duration now ct

  -- MarkTerminal
  unfoldable pub mark_terminal : CooldownKey → Time → CooldownTracker → CooldownTracker
  mark_terminal key now ct = record ct {
    entries = put key (record blank { until = now + year; terminal = true }) ct.entries;
  }

  -- Reset
  unfoldable pub reset : CooldownKey → CooldownTracker → CooldownTracker
  reset key ct = record ct { entries = drop_key key ct.entries }

  -- ActiveCount: the number of live entries; the others are dropped.
  unfoldable pub active_count : Time → CooldownTracker → ℕ × CooldownTracker
  unfolding live
  active_count now ct = (length (live ct.entries now), record ct { entries = live ct.entries now })
