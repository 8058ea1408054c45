-- ===== src/ModelSelectors.antt =====
-- internal/modelselectors/selectors.go: the selectors of access policies, from users and from
-- storage. The only error of NormalizeStored, and the only one that NormalizeInput can give, is
-- "selector is required", which is `none`.
pub mod Stored
mod Tests
use thinroute.Text.Order.{mem}
use thinroute.Text.{Text, trim_space, text_eq, is_empty, cut}
use thinroute.Prelude.{
  Bool, List, Option, [], if◌then◌else◌, none, not, some, ◌&&◌, ◌++◌, ◌+◌, ◌/◌, ◌||◌, ◌∷◌,
}

pub record Selector : Type 0 where
  pub selector : Text
  pub provider_name : Text
  pub model : Text

pub data ScopeKind : Type 0 where
  scope_global scope_model scope_provider scope_provider_model : ScopeKind

-- IsGlobal
unfoldable pub is_global : Text → Bool
is_global raw = text_eq (trim_space raw) (b'/' ∷ [])

-- The cases of String, at trimmed parts.
abbrev pub selector_of : Text → Text → Text
selector_of provider model =
    if not (is_empty provider) && not (is_empty model)
    then provider ++ b'/' ∷ model
    else if not (is_empty provider)
    then provider ++ b'/' ∷ []
    else model

-- String
unfoldable pub selector_string : Text → Text → Text
selector_string provider_name model = selector_of (trim_space provider_name) (trim_space model)

-- ExactMatchKey
unfoldable pub exact_match_key : Text → Text → Text
exact_match_key provider_name model =
    let provider = trim_space provider_name in
    let m = trim_space model in if is_empty provider || is_empty m then [] else provider ++ b'/' ∷ m

-- ScopeKindFor
unfoldable pub scope_kind_for : (selector provider_name model : Text) → ScopeKind
scope_kind_for selector provider_name model =
    if is_global selector
    then scope_global
    else if not (is_empty (trim_space provider_name)) && not (is_empty (trim_space model))
    then scope_provider_model
    else if not (is_empty (trim_space provider_name))
    then scope_provider
    else scope_model

abbrev trim_parts : Option (Text × Text) → Option (Text × Text)
trim_parts none = none
trim_parts (some (prefix, rest)) = some (trim_space prefix, trim_space rest)

-- splitFirst
unfoldable pub split_first : Text → Option (Text × Text)
split_first value = trim_parts (cut value b'/')

abbrev or_model : Text → Option (Text × Text) → Text × Text
or_model selector none = ([], selector)
or_model selector (some parts) = parts

-- ParseStoredParts
unfoldable pub parse_stored_parts : Text → Text × Text
parse_stored_parts raw =
    let selector = trim_space raw in
    if is_global selector then ([], []) else or_model selector (split_first selector)

-- The end of NormalizeStored.
unfoldable pub stored_selector : (selector : Text) → (global : Bool) → Text × Text → Option Selector
stored_selector selector global (provider, model) =
    let normalized = selector_string provider model in
    if is_empty provider && is_empty model && not global
    then none
    else some (record {
      selector = if is_empty normalized then selector else normalized;
      provider_name = provider;
      model = model;
    })

-- NormalizeStored
unfoldable pub normalize_stored : (selector provider_name model : Text) → Option Selector
normalize_stored selector_in provider_in model_in =
    let trimmed = trim_space selector_in in
    let provider = trim_space provider_in in
    let model = trim_space model_in in
    let global = is_global trimmed in
    let selector = if is_empty trimmed then selector_string provider model else trimmed in
    let parts =
      if is_empty provider && is_empty model && not global
      then parse_stored_parts selector
      else (provider, model) in
    if is_empty selector then none else stored_selector selector global parts

-- The set of the trimmed provider names.
unfoldable pub provider_name_set : List Text → List Text
provider_name_set [] = []
provider_name_set (name ∷ names) =
    let rest = provider_name_set names in
    if is_empty (trim_space name) then rest else trim_space name ∷ rest

-- The parts of the input: a prefix that names a provider is the provider.
abbrev input_parts : List Text → Text → Option (Text × Text) → Text × Text
input_parts names raw none = ([], raw)
input_parts names raw (some (prefix, rest)) = if mem prefix names then (prefix, rest) else ([], raw)

abbrev input_selector : Text × Text → Option Selector
input_selector (provider, model) =
    if is_empty provider && is_empty model
    then none
    else some (record {
      selector = selector_string provider model;
      provider_name = provider;
      model = model;
    })

-- NormalizeInputWithProviderNames. Its test for an unknown provider never fails, since the
-- provider is taken only if it is known.
unfoldable pub normalize_input : List Text → Text → Option Selector
normalize_input provider_names raw_in =
    let raw = trim_space raw_in in
    if is_empty raw
    then none
    else if is_global raw
    then some (record { selector = b'/' ∷ []; provider_name = []; model = [] })
    else input_selector (input_parts (provider_name_set provider_names) raw (split_first raw))
