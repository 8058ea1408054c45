-- ===== src/Selector.antt =====
-- internal/core/model_selector.go: the name of a model, with the provider it is asked from.
pub mod Qualified
pub mod Requested
mod Tests
use thinroute.Text.{Text, is_empty, trim_space, cut, text_eq}
use thinroute.Prelude.{Option, [], if◌then◌else◌, none, some, ◌++◌, ◌+◌, ◌/◌, ◌||◌, ◌∷◌}

pub record ModelSelector : Type 0 where
  pub model : Text
  pub provider : Text

-- QualifiedModel
unfoldable pub qualified_model : ModelSelector → Text
qualified_model s = if is_empty s.provider then s.model else s.provider ++ b'/' ∷ s.model

-- splitQualifiedModel, at what strings.SplitN finds.
split_parts : Option (Text × Text) → Option (Text × Text)
split_parts none = none
split_parts (some (before, after)) =
    let prefix = trim_space before in
    let rest = trim_space after in
    if is_empty prefix || is_empty rest then none else some (prefix, rest)

-- splitQualifiedModel
unfoldable pub split_qualified_model : Text → Option (Text × Text)
unfolding split_parts
split_qualified_model model = split_parts (cut model b'/')

-- A redundant prefix of an explicit provider is dropped.
strip : Text → Text → Option (Text × Text) → Text
strip provider model none = model
strip provider model (some (prefix, rest)) = if text_eq prefix provider then rest else model

-- Without an explicit provider, a prefix is the provider.
infer : Text → Option (Text × Text) → ModelSelector
infer model none = record { model = model; provider = [] }
infer model (some (prefix, rest)) = record { model = rest; provider = prefix }

-- ParseModelSelector; `none` is the error.
unfoldable pub parse_model_selector : Text → Text → Option ModelSelector
unfolding strip infer
parse_model_selector model_in provider_in =
    let model = trim_space model_in in
    let provider = trim_space provider_in in
    let split = split_qualified_model model in
    let selector =
      if is_empty provider
      then infer model split
      else record { model = strip provider model split; provider = provider } in
    if is_empty model then none else if is_empty selector.model then none else some selector
