-- ===== src/Retention/Keeps.antt =====
-- The sweep of expired entries drops no other entry.
use thinroute.Prelude.{
  Bool-cases, [], ap, arith, false, if◌then◌else◌, inl, inr, none, refl, some, ◌∙◌, ◌∷◌, ◌≡◌,
}
use thinroute.Clock.{Time}
use thinroute.Map.{Map, lookup}
use thinroute.Retention.{
  sweep, cleanup_expired_locked, MemoryStore, Snapshot, remove_locked, expired,
}
use thinroute.Text.{text_eq, Text}
use thinroute.Map.Laws.{Unique, lookup-remove}
use thinroute.Retention.Accounts.{Balanced, remove_locked-items}
use thinroute.Text.Laws.{text_eq_iff}

module _ {A : Type 0} where
  remove_locked-lookup_ne :
      (j id : Text) (s : MemoryStore A)
      → text_eq j id ≡ false
      → lookup id (remove_locked j s).items ≡ lookup id s.items
  remove_locked-lookup_ne j id s h =
      ap (lookup id) (remove_locked-items j s) ∙ lookup-remove j id s.items ∙ rw h

  -- The one entry of the map at this id is `c`, if there is one.
  abbrev Owns : Text → Snapshot A → Map (Snapshot A) → Type 0
  Owns id c m = (d : Snapshot A) → lookup id m ≡ some d → d ≡ c

  sweep-keeps :
      (m : Map (Snapshot A)) (now : Time) (s : MemoryStore A) (id : Text) (c : Snapshot A)
      → Owns id c m
      → Unique m
      → expired c now ≡ false
      → lookup id s.items ≡ some c
      → lookup id (sweep m now s).items ≡ some c
  unfolding sweep
  sweep-keeps [] now s id c own u live e = e
  sweep-keeps ((j, d) ∷ rest) now s id c own (absent, u) live e = elim (Bool-cases (text_eq j id)) [
    | inl same ↦
        let eq : j ≡ id = (text_eq_iff j id).0 same in
        let held : d ≡ c = own d (unfold lookup in rw same refl) in
        let gone : lookup id rest ≡ none = rw eq at absent in
        let kept : (if expired d now then remove_locked j s else s) ≡ s = rw (held, live) in
        sweep-keeps rest now (if expired d now then remove_locked j s else s) id c (λ x h. cc) u
          live (ap (λ (x : MemoryStore A). lookup id x.items) kept ∙ e)
    | inr differ ↦
        let t = if expired d now then remove_locked j s else s in
        sweep-keeps rest now t id c (λ x h. own x (unfold lookup in rw differ h)) u live
          (ground (arith, remove_locked-lookup_ne j id s differ))
  ]

  pub cleanup_expired_locked-keeps :
      (now : Time) (s : MemoryStore A) (id : Text) (c : Snapshot A)
      → Balanced s
      → expired c now ≡ false
      → lookup id s.items ≡ some c
      → lookup id (cleanup_expired_locked now s).items ≡ some c
  unfolding cleanup_expired_locked
  cleanup_expired_locked-keeps now s id c b live e =
      let own : Owns id c s.items = (λ d h. cc) in
      ground (
        arith,
        sweep-keeps s.items now (record s { last_cleanup = now }) id c own b.unique_items live e,
      )
