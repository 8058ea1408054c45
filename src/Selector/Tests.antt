-- ===== src/Selector/Tests.antt =====
-- Names of models as they are written, and how they are read.
use thinroute.Prelude.{Option, [], refl, some, ◌≡◌}
use thinroute.Selector.{
  ModelSelector, parse_model_selector, split_qualified_model, strip, qualified_model, infer,
  split_parts,
}
use thinroute.Text.{codes, trim_space, cut, text_eq, is_space, trim_left, Text}
use thinroute.Selector.Qualified.{parse-qualified_model}

abbrev selector : ModelSelector
selector = record { model = codes "openai/gpt-oss-120b"; provider = codes "groq" }

abbrev read : Text → Text → Option ModelSelector
unfolding parse_model_selector split_qualified_model trim_space cut text_eq strip infer split_parts
    is_space trim_left
read model provider = parse_model_selector model provider

-- The explicit provider is stripped off the model.
explicit_provider : read (codes "groq/openai/gpt-oss-120b") (codes " groq ") ≡ some selector
unfolding read parse_model_selector split_qualified_model trim_space cut text_eq
explicit_provider = refl

-- A provider with a slash is split elsewhere when its qualified name is read again.
slash_provider :
    read (qualified_model (record { model = codes "m"; provider = codes "a/b" })) []
    ≡ some (record { model = codes "b/m"; provider = codes "a" })
unfolding read parse_model_selector split_qualified_model trim_space cut text_eq qualified_model
slash_provider = refl

parse-qualified_model_example : parse_model_selector (qualified_model selector) [] ≡ some selector
unfolding parse_model_selector split_qualified_model trim_space cut text_eq
parse-qualified_model_example =
    parse-qualified_model (codes "groq/openai/gpt-oss-120b") (codes " groq ") selector refl refl
