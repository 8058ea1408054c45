-- ===== src/VirtualModels/Service/Removal.antt =====
-- Delete of internal/virtualmodels/service.go takes effect as a whole or not at all.
use thinroute.Prelude.{
  Bool, Bool-cases, Option, [], ap, arith, false, inl, inr, none, refl, some, subst, ◌||◌, ◌∙◌, ◌∷◌,
  ◌≡◌,
}
use thinroute.Balancer.{Weights}
use thinroute.Map.{lookup}
use thinroute.Text.{Text, trim_space, is_empty}
use thinroute.VirtualModels.{valid, VirtualModel, Checked, invalid}
use thinroute.VirtualModels.Redirect.{normalize_stored_policy}
use thinroute.VirtualModels.Service.{
  StoreOps, Catalog, Service, is_managed_source, Deleted, row_missing, delete_failed, row_deleted,
}
use thinroute.VirtualModels.Snapshot.{ModelSnapshot}
use thinroute.VirtualModels.Service.Atomic.{Answers, Removed, Synced-OwnSource}
use thinroute.VirtualModels.Service.Contract.{
  StoreLaws, Synced, restored, OwnSources, or-false, LeftBy, commit_refresh-After, restore-restored,
  set_row-back,
}
use thinroute.VirtualModels.Service.Writes.{
  lookup_canonical_source, found_at, found_normalized, found_or, source_row, delete_model,
  delete_found, after_row_delete,
}
use mathlib.Core.Option.{some-injective}

module _ (ws : Weights) (negative : ws.F → Bool) where
  found_at-lookup :
      (source : Text) (s : ModelSnapshot ws negative) (found : VirtualModel ws × Text)
      → found_at ws negative source (lookup source s.by_source) ≡ some found
      → lookup found.1 s.by_source ≡ some found.0
  found_at-lookup source s found h = at (lookup source s.by_source) refl h
    where
      at :
          (o : Option (VirtualModel ws))
          → lookup source s.by_source ≡ o
          → found_at ws negative source o ≡ some found
          → lookup found.1 s.by_source ≡ some found.0
      at none e h = absurd (ground arith)
      at (some vm) e h =
          subst (λ x. lookup x.1 s.by_source ≡ some x.0) (some-injective (vm, source) found h) e

  found_normalized-lookup :
      (s : ModelSnapshot ws negative) (c : Checked (VirtualModel ws))
      (found : VirtualModel ws × Text)
      → found_normalized ws negative s c ≡ some found
      → lookup found.1 s.by_source ≡ some found.0
  found_normalized-lookup s (invalid e) found h = absurd (ground arith)
  found_normalized-lookup s (valid parts) found h = found_at-lookup parts.source s found h

  found_or-lookup :
      (s : ModelSnapshot ws negative) (o next : Option (VirtualModel ws × Text))
      (found : VirtualModel ws × Text)
      → (o ≡ some found → lookup found.1 s.by_source ≡ some found.0)
      → (next ≡ some found → lookup found.1 s.by_source ≡ some found.0)
      → found_or ws negative o next ≡ some found
      → lookup found.1 s.by_source ≡ some found.0
  found_or-lookup s none next found first second h = second h
  found_or-lookup s (some r) next found first second h = first h

  -- The row that is found for a source stands in the snapshot under the source that is answered.
  pub lookup_canonical_source-lookup :
      (s : ModelSnapshot ws negative) (source : Text) (found : VirtualModel ws × Text)
      → lookup_canonical_source ws negative s source ≡ some found
      → lookup found.1 s.by_source ≡ some found.0
  unfolding lookup_canonical_source
  lookup_canonical_source-lookup s source found h =
      found_or-lookup s _ _ found (found_at-lookup (trim_space source) s found)
        (found_normalized-lookup s
          (normalize_stored_policy ws negative (source_row ws negative (trim_space source))) found)
        h

module _ (ws : Weights) (negative : ws.F → Bool) {S : Type 0} (ops : StoreOps ws negative S)
    (catalog : Catalog ws negative) (find : Text → S → Option (VirtualModel ws))
    (laws : StoreLaws ws negative ops find) (sv : Service ws negative S)
    (synced : Synced ws negative ops find laws sv) where
  after_row_delete-After :
      (given source : Text) (previous : VirtualModel ws)
      → lookup_canonical_source ws negative sv.current given ≡ some (previous, source)
      → lookup source sv.current.by_source ≡ some previous
      → is_managed_source ws negative sv.config_models source ≡ false
      → (d : Deleted × S) → LeftBy ws d.0 source (λ j. find j sv.store) (λ j. find j d.1)
      → Answers ws negative ops catalog find laws
          (Removed ws negative ops catalog find laws given sv)
          sv
          (after_row_delete ws negative ops catalog source previous sv d)
  unfolding restored OwnSources
  after_row_delete-After given source previous e there u (row_missing, st) law = (law.1, refl)
  after_row_delete-After given source previous e there u (delete_failed, st) law = (law, refl)
  after_row_delete-After given source previous e there u (row_deleted, st) law =
      commit_refresh-After ws negative ops find laws
        (Removed ws negative ops catalog find laws given sv) sv ((source, some previous) ∷ []) st
        (λ h k.
          restore-restored ws negative ops find laws ((source, some previous) ∷ []) st
            (
              λ vm same.
                  Synced-OwnSource ws negative ops catalog find laws source sv synced u vm
                    (there ∙ same),
              tt,
            )
            h k
          ∙ set_row-back ws source (some previous) (λ j. find j st) (λ j. find j sv.store) k
              (synced source u ∙ there) (λ n. law k ∙ rw n refl))
        (λ next same. ((previous, source), (e, λ k. ap (find k) same ∙ law k)))

  delete_found-After :
      (given : Text) (o : Option (VirtualModel ws × Text))
      → lookup_canonical_source ws negative sv.current given ≡ o
      → Answers ws negative ops catalog find laws
          (Removed ws negative ops catalog find laws given sv)
          sv
          (delete_found ws negative ops catalog sv o)
  delete_found-After given none e = (λ k. refl, refl)
  delete_found-After given (some (previous, source)) e =
      elim (Bool-cases
        (previous.managed || is_managed_source ws negative sv.config_models source)) [
          | inl b ↦ rw b (λ k. refl, refl)
          | inr b ↦ rw b (
              after_row_delete-After given source previous e
                (lookup_canonical_source-lookup ws negative sv.current given (previous, source) e)
                (or-false ws negative ops find laws _ _ b).1 (ops.delete_row source sv.store)
                (laws.deleted source sv.store))
        ]

  pub delete_model-After :
      (given : Text)
      → Answers ws negative ops catalog find laws
          (Removed ws negative ops catalog find laws (trim_space given) sv)
          sv
          (delete_model ws negative ops catalog given sv)
  unfolding delete_model
  delete_model-After given = elim (Bool-cases (is_empty (trim_space given))) [
    | inl e ↦ rw e (λ k. refl, refl)
    | inr e ↦ rw e (
        delete_found-After (trim_space given)
          (lookup_canonical_source ws negative sv.current (trim_space given)) refl)
  ]
