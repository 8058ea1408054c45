-- ===== src/VirtualModels/Access.antt =====
-- effectiveState of internal/virtualmodels/snapshot.go, and authorize.go: who may use a model.
pub mod Rule
use thinroute.Prelude.{
  Bool, List, Option, [], false, if◌then◌else◌, length, none, not, some, true, ◌&&◌, ◌==◌, ◌∷◌,
}
use thinroute.Balancer.{Weights}
use thinroute.ModelSelectors.{selector_string}
use thinroute.Selector.{ModelSelector, parse_model_selector}
use thinroute.Text.{Text, trim_space, is_empty}
use thinroute.VirtualModels.{VirtualModel}
use thinroute.VirtualModels.Paths.{user_path_allowed}
use thinroute.VirtualModels.Snapshot.{ModelSnapshot, matching_policy}

pub record EffectiveState : Type 0 where
  pub selector : Text
  pub provider_name : Text
  pub model : Text
  pub default_enabled : Bool
  pub enabled : Bool
  pub user_paths : List Text

-- The errors of ValidateModelAccess.
pub data AccessError : Type 0 where
  model_not_available not_available_for_key : AccessError

-- The check of the paths in ValidateModelAccess, where the model is enabled.
abbrev check_paths : Text → List Text → Option AccessError
check_paths user_path paths =
    if length paths == 0
    then none
    else if user_path_allowed user_path paths
    then none
    else some not_available_for_key

module _ (ws : Weights) (negative : ws.F → Bool) where
  -- The rule of a policy row replaces the default.
  abbrev apply_rule : Option (VirtualModel ws) → EffectiveState → EffectiveState
  apply_rule none state = state
  apply_rule (some rule) state = record state {
    enabled = rule.enabled;
    user_paths = rule.user_paths;
  }

  -- effectiveState
  unfoldable pub effective_state : ModelSnapshot ws negative → ModelSelector → EffectiveState
  effective_state s selector =
      let model = trim_space selector.model in
      let provider_name = trim_space selector.provider in
      let state : EffectiveState = record {
        selector = selector_string provider_name model;
        provider_name = provider_name;
        model = model;
        default_enabled = s.default_enable;
        enabled = s.default_enable;
        user_paths = [];
      } in
      if is_empty model && is_empty provider_name
      then state
      else apply_rule (matching_policy ws negative s provider_name model) state

  -- AllowsModel, for the user's path of the request.
  unfoldable pub allows_model :
      ModelSnapshot ws negative → (user_path : Text) → ModelSelector → Bool
  allows_model s user_path selector =
      let state = effective_state s selector in
      if not state.enabled
      then false
      else if length state.user_paths == 0
      then true
      else user_path_allowed user_path state.user_paths

  -- ValidateModelAccess; `none` is no error.
  unfoldable pub validate_model_access :
      ModelSnapshot ws negative → (user_path : Text) → ModelSelector → Option AccessError
  validate_model_access s user_path selector =
      let state = effective_state s selector in
      if not state.enabled then some model_not_available else check_paths user_path state.user_paths

  -- The loop of FilterPublicModels, over the ids of the models.
  abbrev pub listed : ModelSnapshot ws negative → (user_path : Text) → Option ModelSelector → Bool
  listed s user_path none = false
  listed s user_path (some selector) = allows_model s user_path selector

  unfoldable pub filter_public_models :
      ModelSnapshot ws negative → (user_path : Text) → List Text → List Text
  filter_public_models s user_path [] = []
  filter_public_models s user_path (id ∷ ids) =
      let rest = filter_public_models s user_path ids in
      if listed s user_path (parse_model_selector id []) then id ∷ rest else rest
