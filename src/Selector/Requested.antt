-- ===== src/Selector/Requested.antt =====
-- internal/core/requested_model_selector.go: a selector as the caller has given it.
use thinroute.Prelude.{Bool, Option, if◌then◌else◌, none, not, some, ◌++◌, ◌∷◌}
use thinroute.Selector.{ModelSelector, parse_model_selector, qualified_model}
use thinroute.Text.{trim_space, is_empty, Text}

pub record RequestedModelSelector : Type 0 where
  pub model : Text
  pub provider_hint : Text
  pub explicit_provider : Bool

-- NewRequestedModelSelector
unfoldable pub new_requested_model_selector : Text → Text → RequestedModelSelector
new_requested_model_selector model provider_hint = record {
  model = trim_space model;
  provider_hint = trim_space provider_hint;
  explicit_provider = not (is_empty (trim_space provider_hint));
}

-- Normalize
unfoldable pub normalize : RequestedModelSelector → Option ModelSelector
normalize s = parse_model_selector s.model s.provider_hint

abbrev qualified_or : RequestedModelSelector → Option ModelSelector → Text
qualified_or s (some selector) = qualified_model selector
qualified_or s none =
    if is_empty s.provider_hint then s.model else s.provider_hint ++ b'/' ∷ s.model

-- RequestedQualifiedModel
unfoldable pub requested_qualified_model : RequestedModelSelector → Text
requested_qualified_model s =
    if not s.explicit_provider then s.model else qualified_or s (normalize s)
