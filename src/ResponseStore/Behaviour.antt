-- ===== src/ResponseStore/Behaviour.antt =====
-- What the methods answer.
use thinroute.Prelude.{
  Bool-cases, Option, ap, arith, false, inl, inr, none, refl, some, true, ℕ, ◌∙◌, ◌≡◌,
}
use thinroute.Clock.{Time}
use thinroute.Map.{lookup}
use thinroute.ResponseStore.{
  create_at, create, get_at, get, create_cloned, delete, done, cloned_reply, refused, not_found,
}
use thinroute.Retention.{
  MemoryStore, expired, cleanup_expired_locked, prepare, remove_locked, Snapshot,
}
use thinroute.Text.{Text}
use thinroute.ResponseStore.Bounded.{create-IsBounded}
use thinroute.Retention.Accounts.{Balanced}
use thinroute.Retention.Keeps.{cleanup_expired_locked-keeps}
use thinroute.Retention.Shrink.{IsBounded, write-lookup}

module _ {A : Type 0} (clone : Snapshot A → Option (Snapshot A × ℕ)) where
  create_at-done :
      (o : Option (Snapshot A)) (c : Snapshot A) (size : ℕ) (now : Time) (s : MemoryStore A)
      → (create_at clone o c size now s).1 ≡ done
      → lookup c.id (create_at clone o c size now s).0.items ≡ some c
  unfolding create_at
  create_at-done none c size now s e = write-lookup c.id c size s
  create_at-done (some x) c size now s e = elim (Bool-cases (expired x now)) [
    | inl h ↦ rw h (write-lookup c.id c size (remove_locked c.id s))
    | inr h ↦ absurd (ground arith)
  ]

  create-stores :
      (r c : Snapshot A) (size : ℕ) (now : Time) (s : MemoryStore A)
      → clone r ≡ some (c, size)
      → (create clone (some r) now s).1 ≡ done
      → expired (prepare c now s.ttl) now ≡ false
      → lookup (prepare c now s.ttl).id (create clone (some r) now s).0.items
        ≡ some (prepare c now s.ttl)
  unfolding create create_cloned
  create-stores r c size now s e d live =
      let s' = cleanup_expired_locked now s in
      let c' = prepare c now s.ttl in
      ground (arith, create_at-done (lookup c'.id s'.items) c' size now s')

  get_at-found :
      (o : Option (Snapshot A)) (id : Text) (c : Snapshot A) (now : Time) (s : MemoryStore A)
      → o ≡ some c
      → expired c now ≡ false
      → (get_at clone o id now s).1 ≡ cloned_reply clone (clone c)
  unfolding get_at
  get_at-found o id c now s e live = rw (e, get_at, live)

  get_at-dead :
      (o : Option (Snapshot A)) (id : Text) (c : Snapshot A) (now : Time) (s : MemoryStore A)
      → o ≡ some c
      → expired c now ≡ true
      → (get_at clone o id now s).1 ≡ refused not_found
  unfolding get_at
  get_at-dead o id c now s e dead = rw (e, get_at, dead)

  get-lookup :
      (id : Text) (c : Snapshot A) (now : Time) (s : MemoryStore A)
      → Balanced s
      → lookup id s.items ≡ some c
      → expired c now ≡ false
      → (get clone id now s).1 ≡ cloned_reply clone (clone c)
  unfolding get
  get-lookup id c now s b e live =
      let s' = cleanup_expired_locked now s in
      get_at-found (lookup id s'.items) id c now s'
        (cleanup_expired_locked-keeps now s id c b live e) live

  -- What Create stored is what Get returns a copy of, at any later time at which the entry has not
  -- expired: the copy of the response with its times filled in, and no other entry's.
  pub get-create :
      (r c : Snapshot A) (size : ℕ) (now later : Time) (s : MemoryStore A)
      → IsBounded s
      → clone r ≡ some (c, size)
      → (create clone (some r) now s).1 ≡ done
      → expired (prepare c now s.ttl) now ≡ false
      → expired (prepare c now s.ttl) later ≡ false
      → (get clone (prepare c now s.ttl).id later (create clone (some r) now s).0).1
        ≡ cloned_reply clone (clone (prepare c now s.ttl))
  get-create r c size now later s b e d live live' =
      get-lookup (prepare c now s.ttl).id (prepare c now s.ttl) later
        (create clone (some r) now s).0 (create-IsBounded clone (some r) now s b).balanced
        (create-stores r c size now s e d live) live'

  -- An entry that has expired, and that a sweep which is put off has not dropped, is not found by
  -- Get, but Delete reports that it has deleted it.
  pub delete-expired :
      (id : Text) (c : Snapshot A) (now : Time) (s : MemoryStore A)
      → cleanup_expired_locked now s ≡ s
      → lookup id s.items ≡ some c
      → expired c now ≡ true
      → ((get clone id now s).1 ≡ refused not_found) × ((delete clone id now s).1 ≡ done)
  unfolding get delete get_at
  delete-expired id c now s swept e dead =
      let there : lookup id (cleanup_expired_locked now s).items ≡ some c =
        ap (λ (t : MemoryStore A). lookup id t.items) swept ∙ e in
      (
        get_at-dead (lookup id (cleanup_expired_locked now s).items) id c now
            (cleanup_expired_locked now s) there dead,
        rw there refl,
      )
