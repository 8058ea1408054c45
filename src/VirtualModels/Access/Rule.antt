-- ===== src/VirtualModels/Access/Rule.antt =====
-- The rule that decides on the access to a model, by authorize.go and snapshot.go of
-- internal/virtualmodels.
use thinroute.Prelude.{Bool, List, Option, [], arith, is_some, none, not, some, ◌++◌, ◌∷◌, ◌≡◌}
use thinroute.Balancer.{Weights}
use thinroute.Map.{lookup}
use thinroute.ModelSelectors.{scope_global, scope_provider_model, scope_provider, scope_model}
use thinroute.Selector.{ModelSelector}
use thinroute.Text.{Text}
use thinroute.VirtualModels.{VirtualModel}
use thinroute.VirtualModels.Access.{validate_model_access, allows_model}
use thinroute.VirtualModels.Snapshot.{ModelSnapshot}
use thinroute.VirtualModels.Snapshot.Filed.{last_of}

module _ (ws : Weights) (negative : ws.F → Bool) where
  -- ValidateModelAccess gives no error exactly where AllowsModel answers true.
  pub validate_model_access-allows_model :
      (s : ModelSnapshot ws negative) (user_path : Text) (selector : ModelSelector)
      → is_some (validate_model_access ws negative s user_path selector)
        ≡ not (allows_model ws negative s user_path selector)
  unfolding validate_model_access allows_model
  validate_model_access-allows_model s user_path selector = ground arith

  -- What the indexes of a snapshot have for a model of a provider, from the most specific to the
  -- least.
  abbrev indexed : ModelSnapshot ws negative → Text → Text → List (Option (VirtualModel ws))
  indexed s provider model =
      lookup (provider ++ b'/' ∷ model) s.exact
      ∷ lookup provider s.provider_wide
      ∷ lookup model s.model_wide
      ∷ s.global
      ∷ []

  -- The rows that cover a model of a provider, from the most specific to the least: the last row of
  -- the pair, of the provider, of the model, of everything.
  abbrev pub covering : List (VirtualModel ws) → Text → Text → List (Option (VirtualModel ws))
  covering rows provider model =
      last_of ws negative scope_provider_model (provider ++ b'/' ∷ model) rows none
      ∷ last_of ws negative scope_provider provider rows none
      ∷ last_of ws negative scope_model model rows none
      ∷ last_of ws negative scope_global [] rows none
      ∷ []

  -- The first row of the list that there is.
  abbrev pub first_row : List (Option (VirtualModel ws)) → Option (VirtualModel ws)
  first_row [] = none
  first_row (none ∷ rows) = first_row rows
  first_row (some vm ∷ rows) = some vm

  -- What a row grants: whether the model is enabled, and for which paths.
  abbrev pub grant : Bool → Option (VirtualModel ws) → Bool × List Text
  grant default_enable none = (default_enable, [])
  grant default_enable (some vm) = (vm.enabled, vm.user_paths)
