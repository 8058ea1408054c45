-- ===== src/VirtualModels/Redirect.antt =====
-- normalizeRedirect and normalizeStoredPolicy of internal/virtualmodels/validation.go.
pub mod Distinct
use thinroute.Prelude.{Bool, List, Option, [], false, length, map, none, not, some, true, ◌==◌, ◌∷◌}
use thinroute.Balancer.{Weights}
use thinroute.ModelSelectors.{normalize_stored, normalize_input}
use thinroute.Selector.{ModelSelector, qualified_model}
use thinroute.Text.{Text, trim_space, is_empty}
use thinroute.VirtualModels.{
  ◌>>=◌, ValidationError, Checked, Target, VirtualModel, invalid, selector_required, valid,
  normalize_strategy, target_model_required, source_required, negative_weight, valid_strategy,
  invalid_target, unknown_strategy, target_selector, target_required, duplicate_target,
}
use thinroute.Text.Order.{mem}
use thinroute.VirtualModels.Paths.{normalize_user_paths}

-- An error where the test holds.
abbrev pub refuse : Bool → ValidationError → Checked (Unit {0})
refuse true e = invalid e
refuse false e = valid tt

abbrev pub some_or {ℓ} : {A : Type ℓ} → ValidationError → Option A → Checked A
some_or e none = invalid e
some_or e (some a) = valid a

module _ (ws : Weights) (negative : ws.F → Bool) where
  abbrev pub trimmed_target : Target ws → Target ws
  trimmed_target t = record t { provider = trim_space t.provider; model = trim_space t.model }

  -- The loop of normalizeRedirect over the targets, with the qualified names that it has seen.
  unfoldable pub redirect_targets :
      List (Target ws) → (seen : List Text) → Checked (List (Target ws × ModelSelector))
  redirect_targets [] seen = valid []
  redirect_targets (raw ∷ rest) seen = do
    let target = trimmed_target raw
    _ ← refuse (is_empty target.model) target_model_required
    _ ← refuse (negative target.weight) negative_weight
    selector ← some_or invalid_target (target_selector ws target)
    _ ← refuse (mem (qualified_model selector) seen) duplicate_target
    others ← redirect_targets rest (qualified_model selector ∷ seen)
    valid ((target, selector) ∷ others)

  -- normalizeRedirect: the row, and its targets with their selectors.
  unfoldable pub normalize_redirect :
      VirtualModel ws → Checked (VirtualModel ws × List (Target ws × ModelSelector))
  normalize_redirect vm = do
    let source = trim_space vm.source
    let strategy = normalize_strategy vm.strategy
    _ ← refuse (is_empty source) source_required
    _ ← refuse (not (valid_strategy strategy)) unknown_strategy
    _ ← refuse (length vm.targets == 0) target_required
    targets ← redirect_targets vm.targets []
    paths ← normalize_user_paths vm.user_paths
    valid (
      record vm {
        source = source;
        description = trim_space vm.description;
        strategy = strategy;
        targets = map (λ t. t.0) targets;
        user_paths = paths;
      },
      targets,
    )

  -- normalizeStoredPolicy
  unfoldable pub normalize_stored_policy : VirtualModel ws → Checked (VirtualModel ws)
  normalize_stored_policy vm = do
    parts ← some_or selector_required (normalize_stored vm.source vm.provider_name vm.model)
    paths ← normalize_user_paths vm.user_paths
    valid (record vm {
      source = parts.selector;
      provider_name = parts.provider_name;
      model = parts.model;
      user_paths = paths;
    })

  -- normalizePolicyInput, with the provider names of the catalog.
  unfoldable pub normalize_policy_input : List Text → VirtualModel ws → Checked (VirtualModel ws)
  normalize_policy_input provider_names vm = do
    parts ← some_or selector_required (normalize_input provider_names vm.source)
    paths ← normalize_user_paths vm.user_paths
    valid (record vm {
      source = parts.selector;
      provider_name = parts.provider_name;
      model = parts.model;
      user_paths = paths;
    })
