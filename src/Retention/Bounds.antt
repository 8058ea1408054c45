-- ===== src/Retention/Bounds.antt =====
-- After a write both caps hold, and the entry that was written is still there.
use thinroute.Prelude.{
  All, Bool-cases, [], ap, arith, false, inl, inr, length, ltb, refl, true, ◌&&◌, ◌∙◌, ◌∷◌, ◌≡◌,
  ◌≤◌, ◌⊎◌,
}
use thinroute.Map.{lookup, or_zero, Map, remove}
use thinroute.Retention.{
  MemoryStore, remove_locked, evict, enforce_bounds_locked, Snapshot, within, sorted,
}
use thinroute.Text.{Text, text_eq}
use thinroute.Map.Laws.{lookup-remove, one_key-length, one_key-sum, All-SameKeys, remove-All}
use thinroute.Retention.Accounts.{
  Balanced, remove_locked-sizes, remove_locked-items, remove_locked-Balanced,
}
use thinroute.Retention.Evict.{
  Pending, Pending-sorted, Pending-remove, Pending-protect, Pending-self,
}

module _ {A : Type 0} where
  -- The caps, and the settings by which they are stated.
  abbrev pub Settings : MemoryStore A → MemoryStore A → Type 0
  Settings s t =
      (t.ttl ≡ s.ttl)
      × (t.max_entries ≡ s.max_entries)
      × (t.max_bytes ≡ s.max_bytes)
      × (t.cleanup_interval ≡ s.cleanup_interval)

  pub remove_locked-Settings : (id : Text) (s : MemoryStore A) → Settings s (remove_locked id s)
  unfolding remove_locked
  remove_locked-Settings id s = ground arith

  -- Where only the protected entry is left, and it fits, both caps hold.
  alone-within :
      (protect : Text) (s : MemoryStore A)
      → Balanced s
      → All (λ e. e.0 ≡ protect) s.items
      → or_zero (lookup protect s.sizes) ≤ s.max_bytes ⊎ (s.max_bytes ≡ 0)
      → within s ≡ true
  alone-within protect s b h fits = ground (
    arith,
    one_key-length protect s.items b.unique_items h,
    one_key-sum protect s.sizes b.unique_sizes
        (All-SameKeys (λ k. k ≡ protect) s.items s.sizes b.same h),
    b.total,
  )

  -- The protected entry fits on its own, where the bytes are capped.
  abbrev pub Fits : Text → MemoryStore A → Type 0
  Fits protect s = (or_zero (lookup protect s.sizes) ≤ s.max_bytes) ⊎ (s.max_bytes ≡ 0)

  no-Pending :
      (protect : Text) (m : Map (Snapshot A))
      → All (λ e. Pending {A = A} protect [] e.0) m
      → All (λ e. e.0 ≡ protect) m
  unfolding lookup
  no-Pending protect [] h = tt
  no-Pending protect ((k, c) ∷ m) (inl p, h) = (p, no-Pending protect m h)
  no-Pending protect ((k, c) ∷ m) (inr p, h) = cc

  remove_locked-Fits :
      (protect id : Text) (s : MemoryStore A)
      → Balanced s
      → text_eq id protect ≡ false
      → Fits protect s
      → Fits protect (remove_locked id s)
  remove_locked-Fits protect id s b p f =
      let (_, _, m, _) = remove_locked-Settings id s in
      rw (remove_locked-sizes id s b, lookup-remove id protect s.sizes, p, m) f

  remove_locked-Pending :
      (protect id : Text) (c : Snapshot A) (rest : Map (Snapshot A)) (s : MemoryStore A)
      → All (λ e. Pending protect ((id, c) ∷ rest) e.0) s.items
      → All (λ e. Pending protect rest e.0) (remove_locked id s).items
  remove_locked-Pending protect id c rest s h = rw (remove_locked-items id s) (
      Pending-remove protect id c rest (remove id s.items)
        (remove-All (λ e. Pending protect ((id, c) ∷ rest) e.0) id s.items h))

  evict-within :
      (protect : Text) (es : Map (Snapshot A)) (s : MemoryStore A)
      → Balanced s
      → Fits protect s
      → All (λ e. Pending protect es e.0) s.items
      → within (evict protect es s) ≡ true
  unfolding evict
  evict-within protect [] s b f h = alone-within protect s b (no-Pending protect s.items h) f
  evict-within protect ((id, c) ∷ rest) s b f h = elim (Bool-cases (within s)) [
    | inl e ↦ rw e e
    | inr e ↦ rw e (elim (Bool-cases (text_eq id protect)) [
      | inl p ↦
          rw p (evict-within protect rest s b f (Pending-protect protect id c rest s.items p h))
      | inr p ↦ rw p (
          evict-within protect rest (remove_locked id s) (remove_locked-Balanced id s b)
            (remove_locked-Fits protect id s b p f) (remove_locked-Pending protect id c rest s h))
    ])
  ]

  not_over-within :
      (s : MemoryStore A)
      → (ltb 0 s.max_entries && ltb s.max_entries (length s.items)) ≡ false
      → (ltb 0 s.max_bytes && ltb s.max_bytes s.total_bytes) ≡ false
      → within s ≡ true
  not_over-within s h k = ground arith

  pub enforce_bounds_locked-within :
      (protect : Text) (s : MemoryStore A)
      → Balanced s
      → Fits protect s
      → within (enforce_bounds_locked protect s) ≡ true
  unfolding enforce_bounds_locked
  enforce_bounds_locked-within protect s b f = ground (
    arith,
    not_over-within s,
    evict-within protect (sorted s.items) s b f
        (Pending-sorted protect s.items s.items (Pending-self protect s.items)),
  )

  evict-lookup_protect :
      (protect : Text) (es : Map (Snapshot A)) (s : MemoryStore A)
      → lookup protect (evict protect es s).items ≡ lookup protect s.items
  unfolding evict
  evict-lookup_protect protect [] s = refl
  evict-lookup_protect protect ((id, c) ∷ rest) s = elim (Bool-cases (within s)) [
    | inl e ↦ rw e refl
    | inr e ↦ rw e (elim (Bool-cases (text_eq id protect)) [
      | inl p ↦ rw p (evict-lookup_protect protect rest s)
      | inr p ↦ rw p (
          evict-lookup_protect protect rest (remove_locked id s)
          ∙ ap (lookup protect) (remove_locked-items id s)
          ∙ lookup-remove id protect s.items
          ∙ rw p)
    ])
  ]

  pub enforce_bounds_locked-lookup_protect :
      (protect : Text) (s : MemoryStore A)
      → lookup protect (enforce_bounds_locked protect s).items ≡ lookup protect s.items
  unfolding enforce_bounds_locked
  enforce_bounds_locked-lookup_protect protect s =
      ground (arith, evict-lookup_protect protect (sorted s.items) s)
