-- ===== src/VirtualModels/Resolve.antt =====
-- internal/virtualmodels/resolve.go: which model a requested name stands for. `k` is what the
-- request meets, and the snapshot is the one that the service holds when the request comes.
pub mod Supported
pub mod Accounted
use thinroute.Prelude.{Bool, Option, [], false, if◌then◌else◌, is_some, none, not, some, true}
use thinroute.Balancer.{Weights}
use thinroute.Map.{lookup}
use thinroute.Selector.{ModelSelector}
use thinroute.Text.{Text, trim_space, is_empty}
use thinroute.Balancer.Strategies.{Floats}
use thinroute.Selector.Requested.{RequestedModelSelector, normalize}
use thinroute.VirtualModels.Balanced.{
  no_target, target_panic, picked, Resolved, Conditions, BalancerState, balanced_resolution,
}
use thinroute.VirtualModels.Snapshot.{
  ModelSnapshot, RedirectEntry, representative, resolve_redirect, find_redirect,
}
use mathlib.Core.Option

pub record Resolution : Type 0 where
  pub requested : ModelSelector
  pub resolved : ModelSelector
  pub source : Text

-- The answer of resolveRequested: whether the name was changed is the Boolean; the error of the
-- selector; or the panic of a strategy that reads past the end of the targets.
pub data Answer : Type 0 where
  resolution : Resolution → Bool → Answer
  invalid_selector resolve_panic : Answer

abbrev pub literal : ModelSelector → Answer
literal selector =
    resolution (record { requested = selector; resolved = selector; source = [] }) false

module _ (ws : Weights) (fl : Floats ws) (negative : ws.F → Bool) where
  -- What resolveRequested answers to the target that the balancer picks.
  abbrev pub answer_to : ModelSelector → (source : Text) → Resolved ws fl → Answer
  answer_to selector source no_target = literal selector
  answer_to selector source target_panic = resolve_panic
  answer_to selector source (picked t) =
      resolution (record { requested = selector; resolved = t.selector; source = source }) true

  -- resolveRequested, at the redirect that it finds.
  unfoldable pub through :
      Conditions ws fl
      → ModelSelector
      → Option (RedirectEntry ws negative)
      → BalancerState ws fl
      → Answer × BalancerState ws fl
  through k selector none st = (literal selector, st)
  through k selector (some e) st =
      let r = balanced_resolution ws fl k e.vm.source e.strategy e.targets st in
      (answer_to selector e.vm.source r.0, r.1)

  -- resolveRequested, at the normalized selector.
  unfoldable pub resolve_normalized :
      ModelSnapshot ws negative
      → Conditions ws fl
      → RequestedModelSelector
      → (user_path : Text) → (enforce : Bool) → Option ModelSelector
      → BalancerState ws fl
      → Answer × BalancerState ws fl
  resolve_normalized s k requested user_path enforce none st = (invalid_selector, st)
  resolve_normalized s k requested user_path enforce (some selector) st =
      if requested.explicit_provider
      then (literal selector, st)
      else through k selector (find_redirect ws negative s requested.model user_path enforce) st

  -- resolveRequested
  unfoldable pub resolve_requested :
      ModelSnapshot ws negative
      → Conditions ws fl
      → RequestedModelSelector
      → (user_path : Text) → (enforce : Bool) → BalancerState ws fl
      → Answer × BalancerState ws fl
  resolve_requested s k requested user_path enforce st =
      resolve_normalized s k requested user_path enforce (normalize requested) st

  -- The answer of ResolveModel and ResolveModelForUserPath.
  abbrev pub resolved_model : Answer → Option (ModelSelector × Bool)
  resolved_model (resolution r changed) = some (r.resolved, changed)
  resolved_model invalid_selector = none
  resolved_model resolve_panic = none

  abbrev pub representative_selector : Option (RedirectEntry ws negative) → Option ModelSelector
  representative_selector none = none
  representative_selector (some e) =
      if not e.vm.enabled then none else Option.map (λ t. t.selector) (representative ws negative e)

  -- ResolveRefreshTarget; `none` is the answer false.
  unfoldable pub resolve_refresh_target :
      ModelSnapshot ws negative → RequestedModelSelector → Option ModelSelector
  resolve_refresh_target s requested =
      let name = trim_space requested.model in
      if requested.explicit_provider
      then none
      else if is_empty name
      then none
      else representative_selector (lookup name s.redirects)

  -- Supports
  unfoldable pub supports : ModelSnapshot ws negative → Option (Text → Bool) → Text → Bool
  supports s available model = is_some (resolve_redirect ws negative s available model [] false)
