-- ===== src/Retention/Shrink.antt =====
-- What the sweep and the removals keep: the settings, the accounts and the caps; and the write
-- of an entry that passed the byte budget.
use thinroute.Prelude.{
  Bool-cases, [], arith, false, if◌then◌else◌, inl, inr, refl, some, true, ℕ, ◌∙◌, ◌∷◌, ◌≡◌,
}
use thinroute.Clock.{Time}
use thinroute.Map.{Map, lookup}
use thinroute.Retention.{
  MemoryStore, remove_locked, sweep, cleanup_expired_locked, put_locked, over_byte_budget, Snapshot,
  within, expired, enforce_bounds_locked, dropped,
}
use thinroute.Text.{Text}
use thinroute.Map.Laws.{lookup-insert_self, length-remove}
use thinroute.Retention.Accounts.{
  Balanced, remove_locked-Balanced, touched-Balanced, put_locked-Balanced,
  enforce_bounds_locked-Balanced,
}
use thinroute.Retention.Bounds.{
  Settings, Fits, remove_locked-Settings, enforce_bounds_locked-lookup_protect,
  enforce_bounds_locked-within,
}

module _ {A : Type 0} where
  -- The invariant of a store between two calls: the accounts balance and both caps hold.
  pub record IsBounded (s : MemoryStore A) : Type 0 where
    pub balanced : Balanced s
    pub capped : within s ≡ true

  dropped-capped :
      (id : Text) (s : MemoryStore A) → Balanced s → within s ≡ true → within (dropped id s) ≡ true
  dropped-capped id s b w = ground (arith, length-remove id s.items b.unique_items)

  pub remove_locked-IsBounded :
      (id : Text) (s : MemoryStore A) → IsBounded s → IsBounded (remove_locked id s)
  unfolding remove_locked
  remove_locked-IsBounded id s b = record {
    balanced = remove_locked-Balanced id s b.balanced;
    capped = ground (arith, dropped-capped id s b.balanced);
  }

  sweep-IsBounded :
      (m : Map (Snapshot A)) (now : Time) (s : MemoryStore A)
      → IsBounded s
      → IsBounded (sweep m now s)
  unfolding sweep
  sweep-IsBounded [] now s b = b
  sweep-IsBounded ((id, c) ∷ rest) now s b = elim (Bool-cases (expired c now)) [
    | inl e ↦ rw e (sweep-IsBounded rest now (remove_locked id s) (remove_locked-IsBounded id s b))
    | inr e ↦ rw e (sweep-IsBounded rest now s b)
  ]

  touched-IsBounded :
      (now : Time) (s : MemoryStore A) → IsBounded s → IsBounded (record s { last_cleanup = now })
  touched-IsBounded now s b = record {
    balanced = touched-Balanced now s b.balanced;
    capped = b.capped;
  }

  pub cleanup_expired_locked-IsBounded :
      (now : Time) (s : MemoryStore A) → IsBounded s → IsBounded (cleanup_expired_locked now s)
  unfolding cleanup_expired_locked
  cleanup_expired_locked-IsBounded now s b = ground (
    arith,
    sweep-IsBounded s.items now (record s { last_cleanup = now }) (touched-IsBounded now s b),
  )

  Settings-trans : (s t u : MemoryStore A) → Settings s t → Settings t u → Settings s u
  Settings-trans s t u (a, b, c, d) (a', b', c', d') = (a' ∙ a, b' ∙ b, c' ∙ c, d' ∙ d)

  sweep-Settings :
      (m : Map (Snapshot A)) (now : Time) (s : MemoryStore A) → Settings s (sweep m now s)
  unfolding sweep
  sweep-Settings [] now s = (refl, refl, refl, refl)
  sweep-Settings ((id, c) ∷ rest) now s =
      let t = if expired c now then remove_locked id s else s in
      Settings-trans s t (sweep rest now t) (ground (arith, remove_locked-Settings id s))
        (sweep-Settings rest now t)

  pub cleanup_expired_locked-Settings :
      (now : Time) (s : MemoryStore A) → Settings s (cleanup_expired_locked now s)
  unfolding cleanup_expired_locked
  cleanup_expired_locked-Settings now s =
      ground (arith, sweep-Settings s.items now (record s { last_cleanup = now }))

  -- The size that was written fits the budget.
  put_locked-Fits :
      (id : Text) (c : Snapshot A) (size : ℕ) (s : MemoryStore A)
      → over_byte_budget s size ≡ false
      → Fits id (put_locked id c size s)
  unfolding put_locked over_byte_budget
  put_locked-Fits id c size s h =
      rw (lookup-insert_self id size (remove_locked id s).sizes)
        (ground (arith, remove_locked-Settings id s))

  -- Writing an entry within the byte budget and enforcing the bounds makes the invariant hold,
  -- whether or not the caps held before.
  pub write-IsBounded :
      (id : Text) (c : Snapshot A) (size : ℕ) (s : MemoryStore A)
      → Balanced s
      → over_byte_budget s size ≡ false
      → IsBounded (enforce_bounds_locked id (put_locked id c size s))
  write-IsBounded id c size s b h =
      let put = put_locked-Balanced id c size s b in
      record {
        balanced = enforce_bounds_locked-Balanced id (put_locked id c size s) put;
        capped =
            enforce_bounds_locked-within id (put_locked id c size s) put
              (put_locked-Fits id c size s h);
      }

  -- The entry that was written is what a look-up finds.
  pub write-lookup :
      (id : Text) (c : Snapshot A) (size : ℕ) (s : MemoryStore A)
      → lookup id (enforce_bounds_locked id (put_locked id c size s)).items ≡ some c
  unfolding put_locked
  write-lookup id c size s =
      enforce_bounds_locked-lookup_protect id (put_locked id c size s)
      ∙ lookup-insert_self id c (remove_locked id s).items

  pub over_byte_budget-Settings :
      (s t : MemoryStore A) (size : ℕ)
      → Settings s t
      → over_byte_budget s size ≡ false
      → over_byte_budget t size ≡ false
  unfolding over_byte_budget
  over_byte_budget-Settings s t size (_, _, m, _) h = rw m h
