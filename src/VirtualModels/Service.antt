-- ===== src/VirtualModels/Service.antt =====
-- internal/virtualmodels/service.go: the refresh of the snapshot from the store, and the writes of
-- rows, which are undone if the refresh after them fails. A store is a type of states with the
-- operations `StoreOps`, each of which may fail. The mutex is held from the checks of a write to its
-- end, so a write is one step. `Deleted` tells ErrNotFound from the other errors of Delete.
pub mod Check
pub mod Contract
pub mod Atomic
pub mod Writes
pub mod Removal
pub mod Moved
pub mod Renames
pub mod Whole
mod Tests
use thinroute.Prelude.{
  Bool, List, Option, [], any, false, if◌then◌else◌, is_some, length, none, some, true, ℕ, ◌++◌,
  ◌+◌, ◌==◌, ◌||◌, ◌∷◌,
}
use thinroute.Balancer.{Weights}
use thinroute.Map.{Map, lookup, keys}
use thinroute.Text.{Text, text_eq, trim_space}
use thinroute.VirtualModels.{ValidationError, VirtualModel, Checked, invalid, valid}
use thinroute.Text.Order.{sort_texts}
use thinroute.VirtualModels.Snapshot.{ModelSnapshot, RedirectEntry, build_snapshot}

pub data Deleted : Type 0 where
  row_deleted row_missing delete_failed : Deleted

-- Why a write is refused before the store is touched.
pub data Rejection : Type 0 where
  invalid_row invalid_candidate : ValidationError → Rejection
  managed_source cross_kind self_target other_redirect unknown_provider target_not_found
        source_taken :
      Rejection

-- The answer of a write: done; refused; no such row; the store's error; the error of the refresh,
-- after the rows are restored; or the error of the refresh and of restoring them.
pub data Written : Type 0 where
  saved not_found store_failed refresh_failed rollback_failed : Written
  rejected : Rejection → Written

module _ (ws : Weights) (negative : ws.F → Bool) where
  pub record StoreOps (S : Type 0) : Type 0 where
    pub list : S → Option (List (VirtualModel ws))
    pub put : VirtualModel ws → S → Bool × S
    pub delete_row : Text → S → Deleted × S

  pub record Service (S : Type 0) : Type 0 where
    pub store : S
    pub current : ModelSnapshot ws negative
    pub config_models : List (VirtualModel ws)
    pub default_enabled : Bool
    pub counters : Map ℕ

  pub record Catalog : Type 0 where
    pub provider_names : List Text
    pub supports : Text → Bool

  -- isManagedSource
  unfoldable pub is_managed_source : List (VirtualModel ws) → Text → Bool
  is_managed_source models source =
      any (λ m. text_eq (trim_space m.source) (trim_space source)) models

  -- The loop of mergeConfigModels.
  unfoldable pub unmanaged :
      List (VirtualModel ws) → List (VirtualModel ws) → List (VirtualModel ws)
  unmanaged models [] = []
  unmanaged models (row ∷ rows) =
      let rest = unmanaged models rows in
      if is_managed_source models row.source then rest else row ∷ rest

  -- mergeConfigModels
  unfoldable pub merge_config_models :
      List (VirtualModel ws) → List (VirtualModel ws) → List (VirtualModel ws)
  merge_config_models models stored =
      if length models == 0 then stored else unmanaged models stored ++ models

  -- prune of the rotation's counters.
  unfoldable pub prune : Map ℕ → Map (RedirectEntry ws negative) → Map ℕ
  prune [] active = []
  prune ((source, n) ∷ counters) active =
      let rest = prune counters active in
      if is_some (lookup source active) then (source, n) ∷ rest else rest

  -- rows of the snapshot, in the order of their sources.
  unfoldable pub rows_at : Map (VirtualModel ws) → List Text → List (VirtualModel ws)
  rows_at by_source [] = []
  rows_at by_source (source ∷ sources) =
      let rest = rows_at by_source sources in
      elim (lookup source by_source) [ some vm ↦ vm ∷ rest | none ↦ rest ]

  unfoldable pub rows : ModelSnapshot ws negative → List (VirtualModel ws)
  rows s = rows_at s.by_source (sort_texts (keys s.by_source))

  -- upsertRow
  unfoldable pub upsert_row : List (VirtualModel ws) → VirtualModel ws → List (VirtualModel ws)
  upsert_row [] next = next ∷ []
  upsert_row (row ∷ rest) next =
      let on = upsert_row rest next in
      if text_eq row.source next.source then next ∷ rest else row ∷ on

  -- removeRow
  unfoldable pub remove_row : List (VirtualModel ws) → Text → List (VirtualModel ws)
  remove_row [] source = []
  remove_row (row ∷ rest) source =
      let on = remove_row rest source in if text_eq row.source source then on else row ∷ on

  module _ {S : Type 0} (ops : StoreOps S) where
    -- refreshLocked, at the rows that it builds the snapshot of; `none` is its error.
    abbrev pub with_snapshot : Service S → Checked (ModelSnapshot ws negative) → Option (Service S)
    with_snapshot sv (invalid e) = none
    with_snapshot sv (valid next) =
        some (record sv { current = next; counters = prune sv.counters next.redirects })

    abbrev pub with_rows : Service S → Option (List (VirtualModel ws)) → Option (Service S)
    with_rows sv none = none
    with_rows sv (some stored) = with_snapshot sv (
        build_snapshot ws negative (merge_config_models sv.config_models stored) sv.default_enabled)

    unfoldable pub refresh_locked : Service S → Option (Service S)
    refresh_locked sv = with_rows sv (ops.list sv.store)

    -- The body of the loop of restore: whether it failed, and the store.
    abbrev pub after_delete : Deleted × S → Bool × S
    after_delete (row_deleted, store) = (false, store)
    after_delete (row_missing, store) = (false, store)
    after_delete (delete_failed, store) = (true, store)

    unfoldable pub restore_row : Text → Option (VirtualModel ws) → S → Bool × S
    restore_row source none store = after_delete (ops.delete_row source store)
    restore_row source (some row) store = ops.put row store

    -- restore: whether any row could not be restored.
    unfoldable pub restore : Map (Option (VirtualModel ws)) → S → Bool × S
    restore [] store = (false, store)
    restore ((source, row) ∷ prior) store =
        let first = restore_row source row store in
        let rest = restore prior first.1 in (first.0 || rest.0, rest.1)

    -- commitRefresh
    abbrev pub rolled_back : Service S → Bool × S → Written × Service S
    rolled_back sv (failed, store) =
        (if failed then rollback_failed else refresh_failed, record sv { store = store })

    abbrev pub committed :
        Map (Option (VirtualModel ws)) → Service S → Option (Service S) → Written × Service S
    committed prior sv (some next) = (saved, next)
    committed prior sv none = rolled_back sv (restore prior sv.store)

    unfoldable pub commit_refresh : Map (Option (VirtualModel ws)) → Service S → Written × Service S
    commit_refresh prior sv = committed prior sv (refresh_locked sv)
