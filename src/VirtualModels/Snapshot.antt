-- ===== src/VirtualModels/Snapshot.antt =====
-- internal/virtualmodels/snapshot.go: the rows, indexed for resolution and for access.
pub mod Built
pub mod Entries
pub mod Filed
use thinroute.Prelude.{
  Bool, List, Option, [], get_elem?, if◌then◌else◌, length, ltb, map, none, not, some, ◌&&◌, ◌++◌,
  ◌+◌, ◌∷◌,
}
use thinroute.Balancer.{Weights, ResolvedTarget, supported_targets}
use thinroute.Map.{Map, insert, lookup}
use thinroute.ModelSelectors.{
  ScopeKind, scope_kind_for, exact_match_key, scope_global, scope_provider_model, scope_provider,
  scope_model,
}
use thinroute.Selector.{ModelSelector, qualified_model}
use thinroute.Text.{Text, trim_space, is_empty}
use thinroute.VirtualModels.{◌>>=◌, VirtualModel, Target, Checked, is_redirect, valid}
use thinroute.Text.Order.{sort_texts}
use thinroute.VirtualModels.Paths.{user_path_allowed}
use thinroute.VirtualModels.Redirect.{normalize_redirect, normalize_stored_policy}

module _ (ws : Weights) (negative : ws.F → Bool) where
  pub record RedirectEntry : Type 0 where
    pub vm : VirtualModel ws
    pub targets : List (ResolvedTarget ws)
    pub strategy : Text

  -- representative
  unfoldable pub representative : RedirectEntry → Option (ResolvedTarget ws)
  representative e = get_elem? e.targets 0

  -- The type snapshot; `global` is none where hasGlobal is false.
  pub record ModelSnapshot : Type 0 where
    pub redirects : Map RedirectEntry
    pub order : List Text
    pub by_source : Map (VirtualModel ws)
    pub global : Option (VirtualModel ws)
    pub exact : Map (VirtualModel ws)
    pub provider_wide : Map (VirtualModel ws)
    pub model_wide : Map (VirtualModel ws)
    pub default_enable : Bool

  -- emptySnapshot
  unfoldable pub empty_snapshot : Bool → ModelSnapshot
  empty_snapshot default_enable = record {
    redirects = [];
    order = [];
    by_source = [];
    global = none;
    exact = [];
    provider_wide = [];
    model_wide = [];
    default_enable = default_enable;
  }

  abbrev pub resolved_target : Target ws × ModelSelector → ResolvedTarget ws
  resolved_target (target, selector) = record {
    selector = selector;
    qualified = qualified_model selector;
    weight = target.weight;
    fallback_only = target.fallback_only;
  }

  -- The indexing of a redirect row by buildSnapshot.
  unfoldable pub add_redirect :
      VirtualModel ws × List (Target ws × ModelSelector) → ModelSnapshot → ModelSnapshot
  add_redirect (vm, targets) s =
      let entry : RedirectEntry = record {
        vm = vm;
        targets = map resolved_target targets;
        strategy = vm.strategy;
      } in
      record s {
        redirects = insert vm.source entry s.redirects;
        order = s.order ++ vm.source ∷ [];
        by_source = insert vm.source vm s.by_source;
      }

  -- The indexing of a policy row by its scope.
  abbrev pub add_scoped : ScopeKind → VirtualModel ws → ModelSnapshot → ModelSnapshot
  add_scoped scope_global vm s = record s { global = some vm }
  add_scoped scope_provider_model vm s = record s {
    exact = insert (exact_match_key vm.provider_name vm.model) vm s.exact;
  }
  add_scoped scope_provider vm s = record s {
    provider_wide = insert vm.provider_name vm s.provider_wide;
  }
  add_scoped scope_model vm s = record s { model_wide = insert vm.model vm s.model_wide }

  unfoldable pub add_policy : VirtualModel ws → ModelSnapshot → ModelSnapshot
  add_policy vm s =
      add_scoped (scope_kind_for vm.source vm.provider_name vm.model) vm
        (record s { by_source = insert vm.source vm s.by_source })

  -- The body of the loop of buildSnapshot.
  unfoldable pub add_row : VirtualModel ws → ModelSnapshot → Checked ModelSnapshot
  add_row row s =
      if is_redirect ws row
      then (normalize_redirect ws negative row >>= λ r. valid (add_redirect r s))
      else (normalize_stored_policy ws negative row >>= λ vm. valid (add_policy vm s))

  -- The loop of buildSnapshot.
  unfoldable pub add_rows : List (VirtualModel ws) → ModelSnapshot → Checked ModelSnapshot
  add_rows [] s = valid s
  add_rows (row ∷ rows) s = add_row row s >>= λ next. add_rows rows next

  -- buildSnapshot
  unfoldable pub build_snapshot : List (VirtualModel ws) → Bool → Checked ModelSnapshot
  build_snapshot rows default_enable = do
    next ← add_rows rows (empty_snapshot default_enable)
    valid (record next { order = sort_texts next.order })

  -- The scoping of findRedirect: the entry is enabled, and its paths allow the user where they are
  -- enforced.
  abbrev pub applies : (user_path : Text) → (enforce : Bool) → RedirectEntry → Bool
  applies user_path enforce e =
      e.vm.enabled
      && not (
          enforce
          && ltb 0 (length e.vm.user_paths)
          && not (user_path_allowed user_path e.vm.user_paths))

  abbrev pub if_applies :
      (user_path : Text) → (enforce : Bool) → Option RedirectEntry → Option RedirectEntry
  if_applies user_path enforce none = none
  if_applies user_path enforce (some e) = if applies user_path enforce e then some e else none

  -- findRedirect
  unfoldable pub find_redirect :
      ModelSnapshot → (name user_path : Text) → (enforce : Bool) → Option RedirectEntry
  find_redirect s name_in user_path enforce =
      let name = trim_space name_in in
      if is_empty name then none else if_applies user_path enforce (lookup name s.redirects)

  -- resolveRedirect, for a stand-in that takes no part in the load balancing: the first supported
  -- target, with the source of the row.
  abbrev pub first_supported :
      Option (Text → Bool) → Option RedirectEntry → Option (ModelSelector × Text)
  first_supported available none = none
  first_supported available (some e) = elim (supported_targets ws available e.targets) [
    | [] ↦ none
    | t ∷ rest ↦ some (t.selector, e.vm.source)
  ]

  unfoldable pub resolve_redirect :
      ModelSnapshot
      → Option (Text → Bool)
      → (name user_path : Text) → (enforce : Bool) → Option (ModelSelector × Text)
  resolve_redirect s available name user_path enforce =
      first_supported available (find_redirect s name user_path enforce)

  -- matchingPolicy, from the most specific row to the least.
  abbrev pub or_else :
      Option (VirtualModel ws) → Option (VirtualModel ws) → Option (VirtualModel ws)
  or_else none o = o
  or_else (some vm) o = some vm

  abbrev pub lookup_at : Text → Map (VirtualModel ws) → Option (VirtualModel ws)
  lookup_at key m = if is_empty key then none else lookup key m

  unfoldable pub matching_policy :
      ModelSnapshot → (provider_name model : Text) → Option (VirtualModel ws)
  matching_policy s provider_name model =
      or_else (lookup_at (exact_match_key provider_name model) s.exact) (
        or_else (lookup_at provider_name s.provider_wide)
          (or_else (lookup_at model s.model_wide) s.global))
