-- ===== src/VirtualModels/Service/Whole.antt =====
-- The writes of internal/virtualmodels/service.go take effect as a whole or not at all.
use thinroute.Prelude.{Bool, Option}
use thinroute.Balancer.{Weights}
use thinroute.Text.{Text}
use thinroute.VirtualModels.{VirtualModel}
use thinroute.VirtualModels.Service.{StoreOps, Catalog, Service}
use thinroute.VirtualModels.Service.Atomic.{Done, upsert-After}
use thinroute.VirtualModels.Service.Contract.{After, StoreLaws, Synced}
use thinroute.VirtualModels.Service.Removal.{delete_model-After}
use thinroute.VirtualModels.Service.Renames.{rename-After}
use thinroute.VirtualModels.Service.Writes.{Write, write, upserting, renaming, deleting}

module _ (ws : Weights) (negative : ws.F → Bool) {S : Type 0} (ops : StoreOps ws negative S)
    (catalog : Catalog ws negative) (find : Text → S → Option (VirtualModel ws))
    (laws : StoreLaws ws negative ops find) (sv : Service ws negative S)
    (synced : Synced ws negative ops find laws sv) where
  -- A write - an upsert, a rename or a delete - either answers that it is done, and then the store has
  -- the rows before with this one change; or it answers an error, and then the store has the rows
  -- before, and the snapshot is the one before; only after a rollback that itself failed are the rows
  -- of the store open. This holds in either order in which a rename restores its two rows.
  -- Conditions: the store keeps its contract, and it has the rows of the snapshot at the sources that
  -- the configuration does not manage.
  pub write-After :
      (w : Write ws)
      → After ws negative ops find laws
          (Done ws negative ops catalog find laws w sv)
          sv
          (write ws negative ops catalog w sv).0
          (write ws negative ops catalog w sv).1
  unfolding write
  write-After (upserting vm) = upsert-After ws negative ops catalog find laws sv synced vm
  write-After (renaming old_first source vm) =
      rename-After ws negative ops catalog find laws sv synced old_first source vm
  write-After (deleting source) =
      delete_model-After ws negative ops catalog find laws sv synced source
