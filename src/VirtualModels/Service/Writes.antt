-- ===== src/VirtualModels/Service/Writes.antt =====
-- Rename, Delete and the reads by source of internal/virtualmodels/service.go, and the writes as one
-- step. The rows that a rename restores are in a map, whose order of iteration is open: it is the
-- argument `old_first`.
use thinroute.Prelude.{Bool, Option, [], false, if◌then◌else◌, is_some, none, some, true, ◌||◌, ◌∷◌}
use thinroute.Balancer.{Weights}
use thinroute.Map.{lookup, Map}
use thinroute.Text.{Text, trim_space, is_empty, text_eq}
use thinroute.VirtualModels.{VirtualModel, Checked, invalid, valid, source_required}
use thinroute.VirtualModels.Redirect.{normalize_stored_policy}
use thinroute.VirtualModels.Service.{
  StoreOps, Catalog, Service, Deleted, Written, Rejection, not_found, rejected, rollback_failed,
  commit_refresh, store_failed, is_managed_source, managed_source, invalid_row, restore,
  row_missing, source_taken, delete_failed, row_deleted, upsert_row, remove_row, rows,
}
use thinroute.VirtualModels.Snapshot.{build_snapshot, ModelSnapshot}
use thinroute.VirtualModels.Service.Check.{
  or_fail, upsert, fail_if, validate_redirect_target, normalize_for_upsert, check_candidate,
}

-- A write that a client of the control interface asks for.
pub data Write (ws : Weights) : Type 0 where
  upserting : VirtualModel ws → Write ws
  renaming : Bool → Text → VirtualModel ws → Write ws
  deleting : Text → Write ws

module _ (ws : Weights) (negative : ws.F → Bool) where
  abbrev pub found_at : Text → Option (VirtualModel ws) → Option (VirtualModel ws × Text)
  found_at source none = none
  found_at source (some vm) = some (vm, source)

  -- The row of only a source, as normalizeStoredPolicy is given it.
  abbrev pub source_row : Text → VirtualModel ws
  source_row source = record {
    source = source;
    targets = [];
    strategy = [];
    provider_name = [];
    model = [];
    user_paths = [];
    description = [];
    enabled = false;
    managed = false;
  }

  abbrev pub found_normalized :
      ModelSnapshot ws negative → Checked (VirtualModel ws) → Option (VirtualModel ws × Text)
  found_normalized s (invalid e) = none
  found_normalized s (valid parts) = found_at parts.source (lookup parts.source s.by_source)

  abbrev pub found_or :
      Option (VirtualModel ws × Text)
      → Option (VirtualModel ws × Text)
      → Option (VirtualModel ws × Text)
  found_or (some r) next = some r
  found_or none next = next

  -- lookupCanonicalSource
  unfoldable pub lookup_canonical_source :
      ModelSnapshot ws negative → Text → Option (VirtualModel ws × Text)
  lookup_canonical_source s given =
      let source = trim_space given in
      found_or (found_at source (lookup source s.by_source))
        (found_normalized s (normalize_stored_policy ws negative (source_row source)))

  -- ResolveUpsertEnabled
  abbrev pub enabled_or : Option (VirtualModel ws × Text) → Bool → Bool
  enabled_or none next = next
  enabled_or (some (vm, source)) next = vm.enabled

  unfoldable pub resolve_upsert_enabled :
      ModelSnapshot ws negative → (source old_source : Text) → (requested : Option Bool) → Bool
  resolve_upsert_enabled s source old_source (some b) = b
  resolve_upsert_enabled s source old_source none = enabled_or (lookup_canonical_source s source) (
      if is_empty (trim_space old_source)
      then true
      else enabled_or (lookup_canonical_source s (trim_space old_source)) true)

  module _ {S : Type 0} (ops : StoreOps ws negative S) (catalog : Catalog ws negative) where
    -- Delete, after the store was asked.
    abbrev pub after_row_delete :
        Text
        → VirtualModel ws
        → Service ws negative S
        → Deleted × S
        → Written × Service ws negative S
    after_row_delete source previous sv (row_missing, store) =
        (not_found, record sv { store = store })
    after_row_delete source previous sv (delete_failed, store) =
        (store_failed, record sv { store = store })
    after_row_delete source previous sv (row_deleted, store) =
        commit_refresh ws negative ops ((source, some previous) ∷ []) (record sv { store = store })

    abbrev pub delete_found :
        Service ws negative S → Option (VirtualModel ws × Text) → Written × Service ws negative S
    delete_found sv none = (not_found, sv)
    delete_found sv (some (previous, source)) =
        if previous.managed || is_managed_source ws negative sv.config_models source
        then (rejected managed_source, sv)
        else after_row_delete source previous sv (ops.delete_row source sv.store)

    -- Delete
    unfoldable pub delete_model : Text → Service ws negative S → Written × Service ws negative S
    delete_model given sv =
        let source = trim_space given in
        if is_empty source
        then (rejected (invalid_row source_required), sv)
        else delete_found sv (lookup_canonical_source sv.current source)

    -- The checks of Rename, at the normalized row.
    unfoldable pub check_rename :
        (old_source : Text) → VirtualModel ws → Service ws negative S → Option Rejection
    check_rename old_source normalized sv =
        or_fail ws negative
          (fail_if ws negative (is_some (lookup normalized.source sv.current.by_source))
            source_taken)
          (or_fail ws negative (validate_redirect_target ws negative catalog sv.current normalized)
            (check_candidate ws negative (
              build_snapshot ws negative
                (upsert_row ws negative
                  (remove_row ws negative (rows ws negative sv.current) old_source) normalized)
                sv.default_enabled)))

    -- The rows that Rename restores.
    abbrev pub prior_rows :
        (old_first : Bool) → Text → VirtualModel ws → Text → Map (Option (VirtualModel ws))
    prior_rows true old_source previous new_source =
        (old_source, some previous) ∷ (new_source, none) ∷ []
    prior_rows false old_source previous new_source =
        (new_source, none) ∷ (old_source, some previous) ∷ []

    -- Rename, after the store was asked to delete the old row.
    abbrev pub undone_rename : Service ws negative S → Bool × S → Written × Service ws negative S
    undone_rename sv (failed, store) =
        (if failed then rollback_failed else store_failed, record sv { store = store })

    abbrev pub after_old_delete :
        Map (Option (VirtualModel ws))
        → Service ws negative S
        → Deleted × S
        → Written × Service ws negative S
    after_old_delete prior sv (row_deleted, store) =
        commit_refresh ws negative ops prior (record sv { store = store })
    after_old_delete prior sv (row_missing, store) =
        undone_rename sv (restore ws negative ops prior store)
    after_old_delete prior sv (delete_failed, store) =
        undone_rename sv (restore ws negative ops prior store)

    -- Rename, after the store was asked to put the new row.
    abbrev pub after_new_put :
        Text
        → Map (Option (VirtualModel ws))
        → Service ws negative S
        → Bool × S
        → Written × Service ws negative S
    after_new_put old_source prior sv (true, store) = (store_failed, record sv { store = store })
    after_new_put old_source prior sv (false, store) =
        after_old_delete prior sv (ops.delete_row old_source store)

    abbrev pub rename_checked :
        Bool
        → Text
        → VirtualModel ws
        → VirtualModel ws
        → Service ws negative S
        → Option Rejection
        → Written × Service ws negative S
    rename_checked old_first old_source previous normalized sv (some r) = (rejected r, sv)
    rename_checked old_first old_source previous normalized sv none =
        after_new_put old_source (prior_rows old_first old_source previous normalized.source) sv
          (ops.put normalized sv.store)

    abbrev pub rename_found :
        Bool
        → Text
        → VirtualModel ws
        → Service ws negative S
        → Option (VirtualModel ws)
        → Written × Service ws negative S
    rename_found old_first old_source normalized sv none = (not_found, sv)
    rename_found old_first old_source normalized sv (some previous) =
        rename_checked old_first old_source previous normalized sv
          (check_rename old_source normalized sv)

    abbrev pub rename_moved :
        Bool
        → Text
        → Text
        → VirtualModel ws
        → Service ws negative S
        → Written × Service ws negative S
    rename_moved old_first old_source given normalized sv =
        if is_managed_source ws negative sv.config_models old_source
          || (is_managed_source ws negative sv.config_models normalized.source
              || is_managed_source ws negative sv.config_models given)
        then (rejected managed_source, sv)
        else rename_found old_first old_source normalized sv
            (lookup old_source sv.current.by_source)

    abbrev pub rename_normalized :
        Bool
        → Text
        → VirtualModel ws
        → Service ws negative S
        → Checked (VirtualModel ws)
        → Written × Service ws negative S
    rename_normalized old_first old_source vm sv (invalid e) = (rejected (invalid_row e), sv)
    rename_normalized old_first old_source vm sv (valid normalized) =
        if text_eq normalized.source old_source
        then upsert ws negative ops catalog vm sv
        else rename_moved old_first old_source vm.source normalized sv

    -- Rename
    unfoldable pub rename :
        (old_first : Bool)
        → Text
        → VirtualModel ws
        → Service ws negative S
        → Written × Service ws negative S
    rename old_first given vm sv =
        let old_source = trim_space given in
        if is_empty old_source
        then (rejected (invalid_row source_required), sv)
        else rename_normalized old_first old_source vm sv
            (normalize_for_upsert ws negative catalog vm)

    -- One write.
    unfoldable pub write : Write ws → Service ws negative S → Written × Service ws negative S
    write (upserting vm) sv = upsert ws negative ops catalog vm sv
    write (renaming old_first source vm) sv = rename old_first source vm sv
    write (deleting source) sv = delete_model source sv
