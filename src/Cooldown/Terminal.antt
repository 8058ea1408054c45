-- ===== src/Cooldown/Terminal.antt =====
-- A key that is marked as terminal stays so.
use thinroute.Prelude.{
  Bool, Bool-cases, List, Option, Option-cases, [], arith, false, inl, inr, none, refl, some, true,
  ℕ, ◌*◌, ◌+◌, ◌∷◌, ◌≡◌,
}
use thinroute.Clock.{Duration, Time, second}
use thinroute.Cooldown.{
  CooldownEntry, CooldownKey, live, Float, Entries, find, entry_of, check, record_entry,
  mark_terminal, CooldownTracker, key_eq, record_failure, year, active_count,
}
use thinroute.Text.{Text}
use thinroute.Cooldown.Keys.{key_eq_iff, find-put, find-drop_key}
use thinroute.Cooldown.StatusCode.{record_failure_from_status_code, key_scope, model_scope}

-- Whether the key has a terminal entry.
abbrev pub terminal_in : Option CooldownEntry → Bool
terminal_in none = false
terminal_in (some e) = e.terminal

abbrev pub terminal_at : CooldownKey → Entries → Bool
terminal_at key m = terminal_in (find key m)

live-terminal :
    (key : CooldownKey) (m : Entries) (now : Time)
    → terminal_at key m ≡ true
    → terminal_at key (live m now) ≡ true
unfolding live find
live-terminal key [] now h = h
live-terminal key ((k, e) ∷ m) now h = ground (arith, live-terminal key m now)

terminal-entry : (o : Option CooldownEntry) → terminal_in o ≡ true → (entry_of o).terminal ≡ true
terminal-entry none h = cc
terminal-entry (some e) h = h

module _ (fl : Float) where
  check-terminal :
      (key k : CooldownKey) (now : Time) (ct : CooldownTracker fl)
      → terminal_at key ct.entries ≡ true
      → terminal_at key (check fl k now ct).1.entries ≡ true
  unfolding check
  check-terminal key k now ct h = elim (Option-cases (find k ct.entries)) [
    | inl e ↦ rw e h
    | inr (c, e) ↦ rw e (ground (arith, key_eq_iff k key, find-drop_key k key ct.entries))
  ]

  record_entry_terminal :
      (e : CooldownEntry) (k : CooldownKey) (d : Duration) (now : Time) (ct : CooldownTracker fl)
      → e.terminal ≡ true
      → (record_entry fl e k d now ct).1 ≡ ct
  unfolding record_entry
  record_entry_terminal e k d now ct h = rw h refl

  pub record_entry-find_ne :
      (e : CooldownEntry) (key k : CooldownKey) (d : Duration) (now : Time)
      (ct : CooldownTracker fl)
      → key_eq k key ≡ false
      → find key (record_entry fl e k d now ct).1.entries ≡ find key ct.entries
  unfolding record_entry find
  record_entry-find_ne e key k d now ct h = ground (arith, find-drop_key k key ct.entries)

  pub record_entry_calm :
      (e : CooldownEntry) (key k : CooldownKey) (d : Duration) (now : Time)
      (ct : CooldownTracker fl)
      → e.terminal ≡ false
      → terminal_at k ct.entries ≡ false
      → terminal_at k (record_entry fl e key d now ct).1.entries ≡ false
  unfolding record_entry find
  record_entry_calm e key k d now ct h calm =
      ground (arith, h, calm, find-drop_key key k ct.entries)

  record_failure-terminal :
      (key k : CooldownKey) (d : Duration) (now : Time) (ct : CooldownTracker fl)
      → terminal_at key ct.entries ≡ true
      → terminal_at key (record_failure fl k d now ct).1.entries ≡ true
  record_failure-terminal key k d now ct h = elim (Bool-cases (key_eq k key)) [
    | inl same ↦
        let eq : k ≡ key = (key_eq_iff k key).0 same in
        let dead : (entry_of (find k ct.entries)).terminal ≡ true =
          terminal-entry (find k ct.entries) (rw eq h) in
        unfold record_failure in
        rw (record_entry_terminal (entry_of (find k ct.entries)) k d now ct dead) h
    | inr differ ↦
        unfold record_failure in
        rw (record_entry-find_ne (entry_of (find k ct.entries)) key k d now ct differ) h
  ]

  marked-terminal :
      (key : CooldownKey) (now : Time) (ct : CooldownTracker fl)
      → terminal_at key (mark_terminal fl key now ct).entries ≡ true
  unfolding mark_terminal
  marked-terminal key now ct =
      rw
        (find-put key key
          (record { until = now + year; failures = 0; last_failure = 0; terminal = true })
          ct.entries)
        (ground (arith, key_eq_iff key key))

  mark_terminal-terminal :
      (key k : CooldownKey) (now : Time) (ct : CooldownTracker fl)
      → terminal_at key ct.entries ≡ true
      → terminal_at key (mark_terminal fl k now ct).entries ≡ true
  unfolding mark_terminal
  mark_terminal-terminal key k now ct h =
      rw
        (find-put k key
          (record { until = now + year; failures = 0; last_failure = 0; terminal = true })
          ct.entries)
        (ground arith)

  report-terminal :
      (key : CooldownKey) (p : Text) (i : ℕ) (m : Text) (s : ℕ) (r : Duration) (msg : Text)
      (now : Time) (ct : CooldownTracker fl)
      → terminal_at key ct.entries ≡ true
      → terminal_at key (record_failure_from_status_code fl p i m s r msg now ct).entries ≡ true
  unfolding record_failure_from_status_code
  report-terminal key p i m s r msg now ct h = ground (
    arith,
    mark_terminal-terminal key (key_scope fl p i) now ct h,
    record_failure-terminal key (key_scope fl p i) (5 * second) now ct h,
    record_failure-terminal key (key_scope fl p i) r now ct h,
    record_failure-terminal key (model_scope fl p i m) (30 * second) now ct h,
  )

  -- A call of the tracker other than Reset.
  pub data Call : Type 0 where
    checks : CooldownKey → Time → Call
    fails : CooldownKey → Duration → Time → Call
    marks : CooldownKey → Time → Call
    counts : Time → Call
    reports : Text → ℕ → Text → ℕ → Duration → Text → Time → Call

  unfoldable pub run : List Call → CooldownTracker fl → CooldownTracker fl
  run [] ct = ct
  run (checks k now ∷ rest) ct = run rest (check fl k now ct).1
  run (fails k d now ∷ rest) ct = run rest (record_failure fl k d now ct).1
  run (marks k now ∷ rest) ct = run rest (mark_terminal fl k now ct)
  run (counts now ∷ rest) ct = run rest (active_count fl now ct).1
  run (reports p i m s r msg now ∷ rest) ct =
      run rest (record_failure_from_status_code fl p i m s r msg now ct)

  run-terminal :
      (key : CooldownKey) (calls : List Call) (ct : CooldownTracker fl)
      → terminal_at key ct.entries ≡ true
      → terminal_at key (run calls ct).entries ≡ true
  unfolding run
  run-terminal key [] ct h = h
  run-terminal key (checks k now ∷ rest) ct h =
      run-terminal key rest (check fl k now ct).1 (check-terminal key k now ct h)
  run-terminal key (fails k d now ∷ rest) ct h =
      run-terminal key rest (record_failure fl k d now ct).1
        (record_failure-terminal key k d now ct h)
  run-terminal key (marks k now ∷ rest) ct h =
      run-terminal key rest (mark_terminal fl k now ct) (mark_terminal-terminal key k now ct h)
  run-terminal key (counts now ∷ rest) ct h =
      run-terminal key rest (active_count fl now ct).1
        (unfold active_count in live-terminal key ct.entries now h)
  run-terminal key (reports p i m s r msg now ∷ rest) ct h =
      run-terminal key rest (record_failure_from_status_code fl p i m s r msg now ct)
        (report-terminal key p i m s r msg now ct h)

  check_terminal :
      (key : CooldownKey) (now : Time) (ct : CooldownTracker fl)
      → terminal_at key ct.entries ≡ true
      → ((check fl key now ct).0.active ≡ true) × ((check fl key now ct).0.terminal ≡ true)
  unfolding check
  check_terminal key now ct h = ground arith

  -- Once MarkTerminal has marked a key, the key is active and terminal at every later check,
  -- whatever checks, failures, marks, counts and reports of status codes come in between, on this
  -- key or on others, at any times. (Reset is not among them.)
  pub check-mark_terminal :
      (key : CooldownKey) (marked later : Time) (calls : List Call) (ct : CooldownTracker fl)
      → let c = check fl key later (run calls (mark_terminal fl key marked ct)) in
        (c.0.active ≡ true) × (c.0.terminal ≡ true)
  check-mark_terminal key marked later calls ct =
      check_terminal key later (run calls (mark_terminal fl key marked ct))
        (run-terminal key calls (mark_terminal fl key marked ct) (marked-terminal key marked ct))
