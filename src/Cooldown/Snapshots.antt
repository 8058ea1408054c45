-- ===== src/Cooldown/Snapshots.antt =====
-- internal/providers/cooldown.go: Snapshot, the view of the cooldowns for the control API.
use thinroute.Prelude.{
  Bool, Bool-cases, List, [], ap, arith, false, if◌then◌else◌, inl, inr, length, not, refl, true, ℕ,
  ◌&&◌, ◌||◌, ◌∙◌, ◌∷◌, ◌≡◌,
}
use thinroute.Clock.{Time, after}
use thinroute.Cooldown.{
  CooldownKey, Entries, Float, CooldownEntry, live, active_count, CooldownTracker, is_live,
}
use thinroute.Text.{Text}

pub record CooldownSnapshot : Type 0 where
  pub provider_name : Text
  pub key_index : ℕ
  pub model : Text
  pub scope : Text
  pub active : Bool
  pub terminal : Bool
  pub cooling_until : Time
  pub failures : ℕ

abbrev snapshot_of : CooldownKey → CooldownEntry → Time → CooldownSnapshot
snapshot_of k e now = record {
  provider_name = k.provider_name;
  key_index = k.key_index;
  model = k.model;
  scope = k.scope;
  active = e.terminal || after e.until now;
  terminal = e.terminal;
  cooling_until = e.until;
  failures = e.failures;
}

-- The loop of Snapshot.
snapshots : Entries → Time → List CooldownSnapshot
snapshots [] now = []
snapshots ((k, e) ∷ m) now =
    let rest = snapshots m now in
    if not e.terminal && not (after e.until now) then rest else snapshot_of k e now ∷ rest

module _ (fl : Float) where
  -- Snapshot
  unfoldable pub snapshot : Time → CooldownTracker fl → List CooldownSnapshot
  unfolding snapshots
  snapshot now ct = snapshots ct.entries now

  live-up :
      (k : CooldownKey) (e : CooldownEntry) (m : Entries) (now : Time)
      → is_live e now ≡ true
      → live ((k, e) ∷ m) now ≡ (k, e) ∷ live m now
  unfolding live
  live-up k e m now h = rw h refl

  live-down :
      (k : CooldownKey) (e : CooldownEntry) (m : Entries) (now : Time)
      → is_live e now ≡ false
      → live ((k, e) ∷ m) now ≡ live m now
  unfolding live
  live-down k e m now h = rw h refl

  snapshots-up :
      (k : CooldownKey) (e : CooldownEntry) (m : Entries) (now : Time)
      → is_live e now ≡ true
      → snapshots ((k, e) ∷ m) now ≡ snapshot_of k e now ∷ snapshots m now
  unfolding snapshots
  snapshots-up k e m now h =
      let listed : (not e.terminal && not (after e.until now)) ≡ false = ground (arith, h) in
      rw listed refl

  snapshots-down :
      (k : CooldownKey) (e : CooldownEntry) (m : Entries) (now : Time)
      → is_live e now ≡ false
      → snapshots ((k, e) ∷ m) now ≡ snapshots m now
  unfolding snapshots
  snapshots-down k e m now h =
      let left_out : (not e.terminal && not (after e.until now)) ≡ true = ground (arith, h) in
      rw left_out refl

  live-snapshots :
      (m : Entries) (now : Time)
      → (length (live m now) ≡ length (snapshots m now))
        × (snapshots (live m now) now ≡ snapshots m now)
  live-snapshots [] now = unfold live snapshots in (refl, refl)
  live-snapshots ((k, e) ∷ m) now =
      let (same, again) = live-snapshots m now in
      elim (Bool-cases (is_live e now)) [
        | inl up ↦ rw (live-up k e m now up) (
            rw (snapshots-up k e m now up) (
              omega (arith, same),
              snapshots-up k e (live m now) now up ∙ ap (λ r. snapshot_of k e now ∷ r) again,
            ))
        | inr down ↦
            rw (live-down k e m now down) (rw (snapshots-down k e m now down) (same, again))
      ]

  -- ActiveCount and Snapshot agree: the count is the number of entries that Snapshot lists at the
  -- same time, and the clean-up of the count takes nothing away from the list.
  pub active_count-snapshot :
      (now : Time) (ct : CooldownTracker fl)
      → let c = active_count fl now ct in
        (c.0 ≡ length (snapshot now ct)) × (snapshot now c.1 ≡ snapshot now ct)
  unfolding active_count snapshot
  active_count-snapshot now ct = live-snapshots ct.entries now
