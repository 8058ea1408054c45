-- ===== src/VirtualModels/Service/Moved.antt =====
-- The writes of the store by Rename of internal/virtualmodels/service.go, with their undoing.
use thinroute.Prelude.{
  Bool, Bool-cases, Option, ap, arith, false, if◌then◌else◌, inl, inr, none, refl, some, sym, true,
  ◌∙◌, ◌≡◌,
}
use thinroute.Balancer.{Weights}
use thinroute.Map.{Map}
use thinroute.Text.{text_eq, Text}
use thinroute.VirtualModels.{valid, VirtualModel}
use thinroute.Text.Laws.{text_eq_iff}
use thinroute.VirtualModels.Service.{
  Rejection, restore, StoreOps, Catalog, Service, Deleted, row_missing, delete_failed, row_deleted,
}
use thinroute.VirtualModels.Service.Atomic.{Answers, Renamed}
use thinroute.VirtualModels.Service.Check.{normalize_for_upsert}
use thinroute.VirtualModels.Service.Contract.{
  set_row, OwnSource, StoreLaws, Synced, restored, OwnSources, LeftBy, commit_refresh-After,
  restore-restored, set_row-back,
}
use thinroute.VirtualModels.Service.Writes.{
  prior_rows, after_old_delete, after_new_put, undone_rename, rename_checked,
}

module _ (ws : Weights) (negative : ws.F → Bool) {S : Type 0} (ops : StoreOps ws negative S)
    (catalog : Catalog ws negative) (find : Text → S → Option (VirtualModel ws))
    (laws : StoreLaws ws negative ops find) (sv : Service ws negative S)
    (synced : Synced ws negative ops find laws sv) where
  set_row-swap :
      (row : VirtualModel ws) (old_source : Text) (rows rows' : Text → Option (VirtualModel ws))
      → text_eq row.source old_source ≡ false
      → ((k : Text) → rows' k ≡ set_row ws row.source (some row) rows k)
      → (k : Text)
      → set_row ws old_source none rows' k
        ≡ set_row ws row.source (some row) (set_row ws old_source none rows) k
  set_row-swap row old_source rows rows' apart h k = elim (Bool-cases (text_eq row.source k)) [
    | inl e ↦ elim (Bool-cases (text_eq old_source k)) [
      | inl o ↦
          let same : text_eq row.source old_source ≡ true =
            (text_eq_iff row.source old_source).1
              ((text_eq_iff row.source k).0 e ∙ sym ((text_eq_iff old_source k).0 o)) in
          absurd (ground arith)
      | inr o ↦ rw (o, e) (h k ∙ rw e refl)
    ]
    | inr e ↦ rw e (ap (λ r. if text_eq old_source k then none else r) (h k ∙ rw e refl))
  ]

  module _ (old_first : Bool) (old_source : Text) (previous row : VirtualModel ws)
      (there : find old_source sv.store ≡ some previous)
      (free : find row.source sv.store ≡ none) where
    -- What Rename restores is what was there, whatever stands at the two sources.
    rename-undone :
        (st : S)
        → ((k : Text)
            → text_eq row.source k ≡ false
            → text_eq old_source k ≡ false
            → find k st ≡ find k sv.store)
        → (restore ws negative ops
            (prior_rows ws negative ops catalog old_first old_source previous row.source)
            st).0
          ≡ false
        → (k : Text)
        → find k
            (restore ws negative ops
              (prior_rows ws negative ops catalog old_first old_source previous row.source)
              st).1
          ≡ find k sv.store
    unfolding restored OwnSources
    rename-undone st others h k =
        restore-restored ws negative ops find laws
          (prior_rows ws negative ops catalog old_first old_source previous row.source) st
          (own old_first) h k
        ∙ back old_first
      where
        old_own : OwnSource ws old_source (some previous)
        old_own vm e = laws.find_source old_source vm sv.store (there ∙ e)

        new_own : OwnSource ws row.source none
        new_own vm e = absurd (ground arith)

        own :
            (b : Bool)
            → OwnSources ws (prior_rows ws negative ops catalog b old_source previous row.source)
        own true = (old_own, (new_own, tt))
        own false = (new_own, (old_own, tt))

        back :
            (b : Bool)
            → restored ws
                (prior_rows ws negative ops catalog b old_source previous row.source)
                (λ j. find j st)
                k
              ≡ find k sv.store
        back true =
            set_row-back ws row.source none (set_row ws old_source (some previous) (λ j. find j st))
              (λ j. find j sv.store) k free
              (λ n.
                set_row-back ws old_source (some previous) (λ j. find j st) (λ j. find j sv.store) k
                  there (λ o. others k n o))
        back false =
            set_row-back ws old_source (some previous) (set_row ws row.source none (λ j. find j st))
              (λ j. find j sv.store) k there
              (λ o.
                set_row-back ws row.source none (λ j. find j st) (λ j. find j sv.store) k free
                  (λ n. others k n o))

    module _ (vm : VirtualModel ws) (e : normalize_for_upsert ws negative catalog vm ≡ valid row)
        (apart : text_eq row.source old_source ≡ false) where
      prior : Map (Option (VirtualModel ws))
      prior = prior_rows ws negative ops catalog old_first old_source previous row.source

      undone_rename-After :
          (r : Bool × S)
          → (r.0 ≡ false → (k : Text) → find k r.1 ≡ find k sv.store)
          → Answers ws negative ops catalog find laws
              (Renamed ws negative ops catalog find laws old_source vm sv)
              sv
              (undone_rename ws negative ops catalog sv r)
      undone_rename-After (true, st) h = refl
      undone_rename-After (false, st) h = (h refl, refl)

      after_old_delete-After :
          (st : S)
          → ((k : Text) → find k st ≡ set_row ws row.source (some row) (λ j. find j sv.store) k)
          → (d : Deleted × S) → LeftBy ws d.0 old_source (λ j. find j st) (λ j. find j d.1)
          → Answers ws negative ops catalog find laws
              (Renamed ws negative ops catalog find laws old_source vm sv)
              sv
              (after_old_delete ws negative ops catalog prior sv d)
      unfolding prior
      after_old_delete-After st put (row_deleted, st') law =
          commit_refresh-After ws negative ops find laws
            (Renamed ws negative ops catalog find laws old_source vm sv) sv prior st'
            (rename-undone st' (λ k n o.
              let kept : set_row ws row.source (some row) (λ j. find j sv.store) k
                  ≡ find k sv.store =
                rw n refl in
              let left : set_row ws old_source none (λ j. find j st) k ≡ find k st = rw o refl in
              law k ∙ (left ∙ (put k ∙ kept))))
            (λ next same. (
              row,
              (
                e,
                λ k.
                    ap (find k) same
                    ∙ (law k
                        ∙ set_row-swap row old_source (λ j. find j sv.store) (λ j. find j st) apart
                            put k),
              ),
            ))
      after_old_delete-After st put (row_missing, st') law =
          undone_rename-After (restore ws negative ops prior st') (
            rename-undone st' (λ k n o.
              let kept : set_row ws row.source (some row) (λ j. find j sv.store) k
                  ≡ find k sv.store =
                rw n refl in
              law.1 k ∙ (put k ∙ kept)))
      after_old_delete-After st put (delete_failed, st') law =
          undone_rename-After (restore ws negative ops prior st') (
            rename-undone st' (λ k n o.
              let kept : set_row ws row.source (some row) (λ j. find j sv.store) k
                  ≡ find k sv.store =
                rw n refl in
              law k ∙ (put k ∙ kept)))

      pub rename_checked-After :
          (o : Option Rejection)
          → Answers ws negative ops catalog find laws
              (Renamed ws negative ops catalog find laws old_source vm sv)
              sv
              (rename_checked ws negative ops catalog old_first old_source previous row sv o)
      unfolding prior
      rename_checked-After (some r) = (λ k. refl, refl)
      rename_checked-After none = after (ops.put row sv.store).0 refl
        where
          after :
              (failed : Bool)
              → (ops.put row sv.store).0 ≡ failed
              → Answers ws negative ops catalog find laws
                  (Renamed ws negative ops catalog find laws old_source vm sv)
                  sv
                  (after_new_put ws negative ops catalog old_source prior sv
                    (failed, (ops.put row sv.store).1))
          after true h = (λ k. laws.put_failed row sv.store k h, refl)
          after false h =
              after_old_delete-After (ops.put row sv.store).1 (λ k. laws.put_done row sv.store k h)
                (ops.delete_row old_source (ops.put row sv.store).1)
                (laws.deleted old_source (ops.put row sv.store).1)
