-- ===== src/VirtualModels/Service/Atomic.antt =====
-- A write of internal/virtualmodels/service.go takes effect as a whole or not at all.
use thinroute.Prelude.{
  Bool, Option, [], ap, arith, false, none, refl, some, true, ◌||◌, ◌∙◌, ◌∷◌, ◌≡◌,
}
use thinroute.Balancer.{Weights}
use thinroute.Map.{lookup, Map}
use thinroute.Text.{Text, trim_space}
use thinroute.VirtualModels.{VirtualModel, valid, Checked, invalid}
use thinroute.VirtualModels.Service.{
  StoreOps, Catalog, Service, Rejection, Written, is_managed_source, managed_source, restore,
}
use thinroute.VirtualModels.Service.Check.{
  check_upsert, normalize_for_upsert, or_fail, fail_if, upsert, upsert_normalized, put_checked,
  after_put,
}
use thinroute.VirtualModels.Service.Contract.{
  StoreLaws, Untouched, Synced, set_row, After, OwnSource, restored, OwnSources, restore-restored,
  set_row-back, commit_refresh-After,
}
use thinroute.VirtualModels.Service.Writes.{
  Write, lookup_canonical_source, upserting, renaming, deleting,
}

module _ (ws : Weights) (negative : ws.F → Bool) {S : Type 0} (ops : StoreOps ws negative S)
    (catalog : Catalog ws negative) (find : Text → S → Option (VirtualModel ws))
    (laws : StoreLaws ws negative ops find) where
  -- The store has the normalized row of vm besides the rows before.
  abbrev pub Upserted : VirtualModel ws → Service ws negative S → Service ws negative S → Type 0
  Upserted vm sv sv' =
      (row : VirtualModel ws) × ((normalize_for_upsert ws negative catalog vm ≡ valid row)
        × ((k : Text)
            → find k sv'.store ≡ set_row ws row.source (some row) (λ j. find j sv.store) k))

  -- The store has the normalized row of vm besides the rows before, but for that of the old source.
  abbrev pub Renamed :
      Text → VirtualModel ws → Service ws negative S → Service ws negative S → Type 0
  Renamed old_source vm sv sv' =
      (row : VirtualModel ws) × ((normalize_for_upsert ws negative catalog vm ≡ valid row)
        × ((k : Text)
            → find k sv'.store
              ≡ set_row ws row.source (some row) (set_row ws old_source none (λ j. find j sv.store))
                  k))

  -- The store has the rows before, but for the one that the source finds in the snapshot.
  abbrev pub Removed : Text → Service ws negative S → Service ws negative S → Type 0
  Removed given sv sv' =
      (found : VirtualModel ws × Text) × ((lookup_canonical_source ws negative sv.current given
          ≡ some found)
        × ((k : Text) → find k sv'.store ≡ set_row ws found.1 none (λ j. find j sv.store) k))

  abbrev pub Done : Write ws → Service ws negative S → Service ws negative S → Type 0
  Done (upserting vm) = Upserted vm
  Done (renaming old_first source vm) = Renamed (trim_space source) vm
  Done (deleting source) = Removed (trim_space source)

  abbrev pub Answers :
      (Service ws negative S → Type 0)
      → Service ws negative S
      → Written × Service ws negative S
      → Type 0
  Answers Saved sv a = After ws negative ops find laws Saved sv a.0 a.1

  pub refused :
      (Saved : Service ws negative S → Type 0) (sv : Service ws negative S)
      → Untouched ws negative ops find laws sv sv
  refused Saved sv = (λ k. refl, refl)

  fail_if-none :
      (b c : Bool) (r : Rejection) (next : Option Rejection)
      → or_fail ws negative (fail_if ws negative (b || c) r) next ≡ none
      → b ≡ false
  fail_if-none false c r next h = refl
  fail_if-none true c r next h = absurd (ground arith)

  -- A write that no check refuses is of a source that the configuration does not manage.
  check_upsert-unmanaged :
      (given : Text) (vm : VirtualModel ws) (sv : Service ws negative S)
      → check_upsert ws negative ops catalog given vm sv ≡ none
      → is_managed_source ws negative sv.config_models vm.source ≡ false
  unfolding check_upsert
  check_upsert-unmanaged given vm sv h =
      fail_if-none (is_managed_source ws negative sv.config_models vm.source)
        (is_managed_source ws negative sv.config_models given) managed_source _ h

  -- The row that the snapshot has for a source that is not managed has that source.
  pub Synced-OwnSource :
      (source : Text) (sv : Service ws negative S)
      → Synced ws negative ops find laws sv
      → is_managed_source ws negative sv.config_models source ≡ false
      → OwnSource ws source (lookup source sv.current.by_source)
  Synced-OwnSource source sv synced e vm h =
      laws.find_source source vm sv.store (synced source e ∙ h)

  module _ (sv : Service ws negative S) (synced : Synced ws negative ops find laws sv) where
    put_checked-After :
        (vm row : VirtualModel ws) (o : Option Rejection)
        → normalize_for_upsert ws negative catalog vm ≡ valid row
        → (o ≡ none → is_managed_source ws negative sv.config_models row.source ≡ false)
        → Answers (Upserted vm sv) sv (put_checked ws negative ops catalog row sv o)
    unfolding restored OwnSources
    put_checked-After vm row (some r) e unmanaged = refused (Upserted vm sv) sv
    put_checked-After vm row none e unmanaged = after (ops.put row sv.store).0 refl
      where
        prior : Map (Option (VirtualModel ws))
        prior = (row.source, lookup row.source sv.current.by_source) ∷ []

        back :
            (ops.put row sv.store).0 ≡ false
            → (restore ws negative ops prior (ops.put row sv.store).1).0 ≡ false
            → (k : Text)
            → find k (restore ws negative ops prior (ops.put row sv.store).1).1 ≡ find k sv.store
        back ok h k =
            restore-restored ws negative ops find laws prior (ops.put row sv.store).1
              (Synced-OwnSource row.source sv synced (unmanaged refl), tt) h k
            ∙ set_row-back ws row.source (lookup row.source sv.current.by_source)
                (λ j. find j (ops.put row sv.store).1) (λ j. find j sv.store) k
                (synced row.source (unmanaged refl))
                (λ n. laws.put_done row sv.store k ok ∙ rw n refl)

        after :
            (failed : Bool)
            → (ops.put row sv.store).0 ≡ failed
            → Answers
                (Upserted vm sv)
                sv
                (after_put ws negative ops catalog prior sv (failed, (ops.put row sv.store).1))
        after true h = (λ k. laws.put_failed row sv.store k h, refl)
        after false h =
            commit_refresh-After ws negative ops find laws (Upserted vm sv) sv prior
              (ops.put row sv.store).1 (back h)
              (λ next same. (row, (e, λ k. ap (find k) same ∙ laws.put_done row sv.store k h)))

    upsert_normalized-After :
        (vm : VirtualModel ws) (n : Checked (VirtualModel ws))
        → normalize_for_upsert ws negative catalog vm ≡ n
        → Answers (Upserted vm sv) sv (upsert_normalized ws negative ops catalog vm.source sv n)
    upsert_normalized-After vm (invalid e) h = refused (Upserted vm sv) sv
    upsert_normalized-After vm (valid row) h =
        put_checked-After vm row (check_upsert ws negative ops catalog vm.source row sv) h
          (λ passed. check_upsert-unmanaged vm.source row sv passed)

    pub upsert-After :
        (vm : VirtualModel ws) → Answers (Upserted vm sv) sv (upsert ws negative ops catalog vm sv)
    unfolding upsert
    upsert-After vm = upsert_normalized-After vm (normalize_for_upsert ws negative catalog vm) refl
