-- ===== src/VirtualModels/Service/Renames.antt =====
-- Rename of internal/virtualmodels/service.go takes effect as a whole or not at all.
use thinroute.Prelude.{
  Bool, Bool-cases, Option, [], ap, arith, false, inl, inr, is_some, none, refl, some, subst, sym,
  true, ◌||◌, ◌∙◌, ◌≡◌,
}
use thinroute.Balancer.{Weights}
use thinroute.Map.{lookup}
use thinroute.Text.{text_eq, Text, trim_space, is_empty}
use thinroute.VirtualModels.{valid, VirtualModel, Checked, invalid}
use thinroute.Text.Laws.{text_eq_iff}
use thinroute.VirtualModels.Service.{
  Written, saved, not_found, store_failed, refresh_failed, rollback_failed, rejected, source_taken,
  Rejection, StoreOps, Catalog, Service, is_managed_source,
}
use thinroute.VirtualModels.Service.Atomic.{Answers, Upserted, upsert-After, Renamed}
use thinroute.VirtualModels.Service.Check.{normalize_for_upsert, fail_if, or_fail}
use thinroute.VirtualModels.Service.Contract.{After, StoreLaws, Synced, or-false}
use thinroute.VirtualModels.Service.Writes.{
  rename_checked, rename_found, rename_normalized, check_rename, rename,
}
use thinroute.VirtualModels.Service.Moved.{rename_checked-After}

module _ (ws : Weights) (negative : ws.F → Bool) {S : Type 0} (ops : StoreOps ws negative S)
    (catalog : Catalog ws negative) (find : Text → S → Option (VirtualModel ws))
    (laws : StoreLaws ws negative ops find) (sv : Service ws negative S)
    (synced : Synced ws negative ops find laws sv) where
  taken-free :
      (o : Option (VirtualModel ws)) (next : Option Rejection)
      → or_fail ws negative (fail_if ws negative (is_some o) source_taken) next ≡ none
      → o ≡ none
  taken-free none next h = refl
  taken-free (some r) next h = absurd (ground arith)

  -- A rename that no check refuses is to a free source.
  check_rename-free :
      (old_source : Text) (row : VirtualModel ws)
      → check_rename ws negative ops catalog old_source row sv ≡ none
      → lookup row.source sv.current.by_source ≡ none
  unfolding check_rename
  check_rename-free old_source row h = taken-free (lookup row.source sv.current.by_source) _ h

  After-weaken :
      (P Q : Service ws negative S → Type 0)
      → ((x : Service ws negative S) → P x → Q x)
      → (a : Written) (sv' : Service ws negative S) → After ws negative ops find laws P sv a sv'
      → After ws negative ops find laws Q sv a sv'
  After-weaken P Q f saved sv' h = f sv' h
  After-weaken P Q f rollback_failed sv' h = h
  After-weaken P Q f not_found sv' h = h
  After-weaken P Q f store_failed sv' h = h
  After-weaken P Q f refresh_failed sv' h = h
  After-weaken P Q f (rejected r) sv' h = h

  abbrev source_or_none : Checked (VirtualModel ws) → Text
  source_or_none (valid r) = r.source
  source_or_none (invalid e) = []

  Upserted-Renamed :
      (old_source : Text) (vm row : VirtualModel ws)
      → normalize_for_upsert ws negative catalog vm ≡ valid row
      → text_eq row.source old_source ≡ true
      → (sv' : Service ws negative S) → Upserted ws negative ops catalog find laws vm sv sv'
      → Renamed ws negative ops catalog find laws old_source vm sv sv'
  Upserted-Renamed old_source vm row e same sv' (row', (e', h)) = (
    row',
    (
      e',
      λ k. h k ∙ elim (Bool-cases (text_eq row'.source k)) [
        | inl b ↦ rw b refl
        | inr b ↦
            let old : row'.source ≡ old_source =
              ap source_or_none (sym e' ∙ e) ∙ (text_eq_iff row.source old_source).0 same in
            let other : text_eq old_source k ≡ false = subst (λ x. text_eq x k ≡ false) old b in
            rw (b, other) refl
      ],
    ),
  )

  rename_found-After :
      (old_first : Bool) (old_source : Text) (vm row : VirtualModel ws)
      → normalize_for_upsert ws negative catalog vm ≡ valid row
      → text_eq row.source old_source ≡ false
      → is_managed_source ws negative sv.config_models old_source ≡ false
      → is_managed_source ws negative sv.config_models row.source ≡ false
      → (o : Option (VirtualModel ws)) → lookup old_source sv.current.by_source ≡ o
      → Answers ws negative ops catalog find laws
          (Renamed ws negative ops catalog find laws old_source vm sv)
          sv
          (rename_found ws negative ops catalog old_first old_source row sv o)
  rename_found-After old_first old_source vm row e apart u u' none h = (λ k. refl, refl)
  rename_found-After old_first old_source vm row e apart u u' (some previous) h =
      checked (check_rename ws negative ops catalog old_source row sv) refl
    where
      checked :
          (c : Option Rejection)
          → check_rename ws negative ops catalog old_source row sv ≡ c
          → Answers ws negative ops catalog find laws
              (Renamed ws negative ops catalog find laws old_source vm sv)
              sv
              (rename_checked ws negative ops catalog old_first old_source previous row sv c)
      checked (some r) passed = (λ k. refl, refl)
      checked none passed =
          rename_checked-After ws negative ops catalog find laws sv synced old_first old_source
            previous row (synced old_source u ∙ h)
            (synced row.source u' ∙ check_rename-free old_source row passed) vm e apart none

  rename_normalized-After :
      (old_first : Bool) (old_source : Text) (vm : VirtualModel ws) (n : Checked (VirtualModel ws))
      → normalize_for_upsert ws negative catalog vm ≡ n
      → Answers ws negative ops catalog find laws
          (Renamed ws negative ops catalog find laws old_source vm sv)
          sv
          (rename_normalized ws negative ops catalog old_first old_source vm sv n)
  rename_normalized-After old_first old_source vm (invalid r) e = (λ k. refl, refl)
  rename_normalized-After old_first old_source vm (valid row) e =
      elim (Bool-cases (text_eq row.source old_source)) [
        | inl b ↦ rw b (
            After-weaken _ _ (Upserted-Renamed old_source vm row e b) _ _
              (upsert-After ws negative ops catalog find laws sv synced vm))
        | inr b ↦
            rw b
              (elim (Bool-cases (
                is_managed_source ws negative sv.config_models old_source
                || (is_managed_source ws negative sv.config_models row.source
                    || is_managed_source ws negative sv.config_models vm.source))) [
                      | inl m ↦ rw m (λ k. refl, refl)
                      | inr m ↦
                          let first = or-false ws negative ops find laws _ _ m in
                          let second = or-false ws negative ops find laws _ _ first.1 in
                          rw m (
                            rename_found-After old_first old_source vm row e b first.0 second.0
                              (lookup old_source sv.current.by_source) refl)
                    ])
      ]

  pub rename-After :
      (old_first : Bool) (given : Text) (vm : VirtualModel ws)
      → Answers ws negative ops catalog find laws
          (Renamed ws negative ops catalog find laws (trim_space given) vm sv)
          sv
          (rename ws negative ops catalog old_first given vm sv)
  unfolding rename
  rename-After old_first given vm = elim (Bool-cases (is_empty (trim_space given))) [
    | inl e ↦ rw e (λ k. refl, refl)
    | inr e ↦ rw e (
        rename_normalized-After old_first (trim_space given) vm
          (normalize_for_upsert ws negative catalog vm) refl)
  ]
