-- ===== src/VirtualModels/Service/Check.antt =====
-- The checks before a write of internal/virtualmodels/service.go, and the writes.
use thinroute.Prelude.{
  Bool, List, Option, [], false, if◌then◌else◌, none, not, some, true, ◌&&◌, ◌||◌, ◌∷◌,
}
use thinroute.Balancer.{Weights}
use thinroute.Map.{lookup, Map}
use thinroute.ModelSelectors.{provider_name_set}
use thinroute.Selector.{ModelSelector, qualified_model}
use thinroute.Text.{Text, text_eq, trim_space, is_empty}
use thinroute.VirtualModels.{
  ◌>>=◌, VirtualModel, Checked, is_redirect, Target, valid, target_selector, invalid,
  invalid_target,
}
use thinroute.Text.Order.{mem}
use thinroute.VirtualModels.Redirect.{normalize_redirect, normalize_policy_input}
use thinroute.VirtualModels.Service.{
  Rejection, Catalog, StoreOps, Service, cross_kind, invalid_row, is_managed_source, Written,
  target_not_found, invalid_candidate, managed_source, store_failed, rejected, self_target,
  commit_refresh, other_redirect, upsert_row, unknown_provider, rows,
}
use thinroute.VirtualModels.Snapshot.{ModelSnapshot, RedirectEntry, build_snapshot}

module _ (ws : Weights) (negative : ws.F → Bool) where
  -- The first check that fails.
  abbrev pub or_fail : Option Rejection → Option Rejection → Option Rejection
  or_fail none next = next
  or_fail (some r) next = some r

  abbrev pub fail_if : Bool → Rejection → Option Rejection
  fail_if true r = some r
  fail_if false r = none

  -- normalizeForUpsert
  unfoldable pub normalize_for_upsert :
      Catalog ws negative → VirtualModel ws → Checked (VirtualModel ws)
  normalize_for_upsert catalog vm =
      if is_redirect ws vm
      then (normalize_redirect ws negative vm >>= λ r. valid r.0)
      else normalize_policy_input ws negative catalog.provider_names vm

  abbrev other_kind : Bool → Option (VirtualModel ws) → Bool
  other_kind want_redirect none = false
  other_kind want_redirect (some existing) =
      if want_redirect then not (is_redirect ws existing) else is_redirect ws existing

  -- ensureSourceKind
  unfoldable pub ensure_source_kind :
      ModelSnapshot ws negative → Text → (want_redirect : Bool) → Option Rejection
  ensure_source_kind current source want_redirect =
      fail_if (other_kind want_redirect (lookup source current.by_source)) cross_kind

  abbrev names_other : Text → Option (RedirectEntry ws negative) → Bool
  names_other source none = false
  names_other source (some existing) = not (text_eq existing.vm.source source)

  abbrev check_selector : ModelSnapshot ws negative → Text → Option ModelSelector → Option Rejection
  check_selector current source none = some (invalid_row invalid_target)
  check_selector current source (some selector) =
      or_fail (fail_if (text_eq source (qualified_model selector)) self_target) (
        fail_if (names_other source (lookup (qualified_model selector) current.redirects))
          other_redirect)

  -- The loop of validateRedirectStructure; a policy row has no targets.
  unfoldable pub validate_structure :
      ModelSnapshot ws negative → Text → List (Target ws) → Option Rejection
  validate_structure current source [] = none
  validate_structure current source (t ∷ targets) =
      or_fail (check_selector current source (target_selector ws t))
        (validate_structure current source targets)

  -- validateTargetProviders, with no declared providers.
  unfoldable pub validate_target_providers : List Text → List (Target ws) → Option Rejection
  validate_target_providers registered [] = none
  validate_target_providers registered (t ∷ targets) =
      let name = trim_space t.provider in
      or_fail
        (fail_if (not (is_empty name) && not (mem name (provider_name_set registered)))
          unknown_provider)
        (validate_target_providers registered targets)

  abbrev unsupported : Catalog ws negative → Option ModelSelector → Bool
  unsupported catalog none = false
  unsupported catalog (some selector) = not (catalog.supports (qualified_model selector))

  -- firstUnsupportedTarget, as the error that it makes.
  unfoldable pub first_unsupported_target :
      Catalog ws negative → List (Target ws) → Option Rejection
  first_unsupported_target catalog [] = none
  first_unsupported_target catalog (t ∷ targets) =
      or_fail (fail_if (unsupported catalog (target_selector ws t)) target_not_found)
        (first_unsupported_target catalog targets)

  -- validateRedirectTarget
  unfoldable pub validate_redirect_target :
      Catalog ws negative → ModelSnapshot ws negative → VirtualModel ws → Option Rejection
  validate_redirect_target catalog current vm =
      or_fail (validate_structure current vm.source vm.targets) (
        or_fail (validate_target_providers catalog.provider_names vm.targets)
          (first_unsupported_target catalog vm.targets))

  -- The building of a candidate snapshot, for its error.
  abbrev pub check_candidate : Checked (ModelSnapshot ws negative) → Option Rejection
  check_candidate (valid s) = none
  check_candidate (invalid e) = some (invalid_candidate e)

  module _ {S : Type 0} (ops : StoreOps ws negative S) (catalog : Catalog ws negative) where
    -- The checks of Upsert, at the normalized row.
    unfoldable pub check_upsert : Text → VirtualModel ws → Service ws negative S → Option Rejection
    check_upsert given normalized sv =
        or_fail
          (fail_if
            (is_managed_source ws negative sv.config_models normalized.source
              || is_managed_source ws negative sv.config_models given)
            managed_source)
          (or_fail (ensure_source_kind sv.current normalized.source (is_redirect ws normalized)) (
            or_fail (validate_redirect_target catalog sv.current normalized) (
              check_candidate (
                build_snapshot ws negative
                  (upsert_row ws negative (rows ws negative sv.current) normalized)
                  sv.default_enabled))))

    -- What follows the write of the store.
    abbrev pub after_put :
        Map (Option (VirtualModel ws))
        → Service ws negative S
        → Bool × S
        → Written × Service ws negative S
    after_put prior sv (true, store) = (store_failed, record sv { store = store })
    after_put prior sv (false, store) =
        commit_refresh ws negative ops prior (record sv { store = store })

    abbrev pub put_checked :
        VirtualModel ws → Service ws negative S → Option Rejection → Written × Service ws negative S
    put_checked normalized sv (some r) = (rejected r, sv)
    put_checked normalized sv none =
        after_put ((normalized.source, lookup normalized.source sv.current.by_source) ∷ []) sv
          (ops.put normalized sv.store)

    abbrev pub upsert_normalized :
        Text → Service ws negative S → Checked (VirtualModel ws) → Written × Service ws negative S
    upsert_normalized given sv (invalid e) = (rejected (invalid_row e), sv)
    upsert_normalized given sv (valid normalized) =
        put_checked normalized sv (check_upsert given normalized sv)

    -- Upsert
    unfoldable pub upsert :
        VirtualModel ws → Service ws negative S → Written × Service ws negative S
    upsert vm sv = upsert_normalized vm.source sv (normalize_for_upsert catalog vm)
