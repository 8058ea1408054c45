-- ===== src/Selector/Qualified.antt =====
-- Which selectors the parser answers, and how they are read again from their qualified name.
use thinroute.Prelude.{
  Bool, Bool-cases, Option, [], ap, arith, false, if◌then◌else◌, inl, inr, none, refl, some, subst,
  ◌++◌, ◌||◌, ◌∙◌, ◌∷◌, ◌≡◌,
}
use thinroute.Selector.{
  split_parts, split_qualified_model, ModelSelector, parse_model_selector, qualified_model, infer,
  strip,
}
use thinroute.Text.{is_empty, cut, trim_space, text_eq, Text}
use thinroute.Text.Trim.{
  cut-append, Trimmed-append, Trimmed, before_cut, cut-before_cut, Trimmed-trim_space,
  append_left-is_empty, trim_space-Trimmed, trim_space-cut,
}

-- A provider and a model as splitting finds them.
record Parts (prefix rest : Text) : Type 0 where
  prefix_given : is_empty prefix ≡ false
  rest_given : is_empty rest ≡ false
  prefix_trimmed : Trimmed prefix
  rest_trimmed : Trimmed rest
  plain : cut prefix b'/' ≡ none

abbrev SplitParts : Option (Text × Text) → Type 0
SplitParts none = Unit
SplitParts (some (prefix, rest)) = Parts prefix rest

or_false : (a b : Bool) → (a || b) ≡ false → (a ≡ false) × (b ≡ false)
or_false a b h = ground arith

split_parts-SplitParts :
    (o : Option (Text × Text)) → cut (before_cut o) b'/' ≡ none → SplitParts (split_parts o)
unfolding split_parts
split_parts-SplitParts none h = tt
split_parts-SplitParts (some (before, after)) h =
    let prefix = trim_space before in
    let rest = trim_space after in
    elim (Bool-cases (is_empty prefix || is_empty rest)) [
      | inl e ↦ rw e tt
      | inr e ↦ rw e (record {
        prefix_given = (or_false (is_empty prefix) (is_empty rest) e).0;
        rest_given = (or_false (is_empty prefix) (is_empty rest) e).1;
        prefix_trimmed = trim_space-Trimmed before;
        rest_trimmed = trim_space-Trimmed after;
        plain = trim_space-cut before b'/' h;
      })
    ]

split-SplitParts : (m : Text) → SplitParts (split_qualified_model m)
unfolding split_qualified_model
split-SplitParts m = split_parts-SplitParts (cut m b'/') (cut-before_cut m b'/')

-- A provider and a model that splitting has found are found again in the qualified name.
split_qualified_model-Parts :
    (p m : Text) → Parts p m → split_qualified_model (p ++ b'/' ∷ m) ≡ some (p, m)
unfolding split_qualified_model split_parts
split_qualified_model-Parts p m parts = rw (cut-append p m b'/' parts.plain) (
    rw (Trimmed-trim_space p parts.prefix_trimmed) (
      rw (Trimmed-trim_space m parts.rest_trimmed)
        (rw parts.prefix_given (rw parts.rest_given refl))))

-- A selector that its qualified name determines.
data IsNormal : ModelSelector → Type 0 where
  qualified : (p m : Text) → Parts p m → IsNormal (record { model = m; provider = p })
  unqualified :
      (m : Text)
      → is_empty m ≡ false
      → Trimmed m
      → split_qualified_model m ≡ none
      → IsNormal (record { model = m; provider = [] })

-- The parser on a trimmed name without an explicit provider.
parse-Trimmed :
    (m : Text)
    → Trimmed m
    → is_empty m ≡ false
    → is_empty (infer m (split_qualified_model m)).model ≡ false
    → parse_model_selector m [] ≡ some (infer m (split_qualified_model m))
unfolding parse_model_selector infer trim_space split_qualified_model
parse-Trimmed m tm hm hs = rw (Trimmed-trim_space m tm) (rw hm (rw hs refl))

normal-parses :
    {s : ModelSelector} → IsNormal s → parse_model_selector (qualified_model s) [] ≡ some s
unfolding qualified_model infer
normal-parses (qualified p m parts) =
    let name = p ++ b'/' ∷ m in
    let split : infer name (split_qualified_model name) ≡ record { model = m; provider = p } =
      rw (split_qualified_model-Parts p m parts) refl in
    rw parts.prefix_given (
      parse-Trimmed name
        (Trimmed-append p m (b'/' ∷ []) parts.prefix_given parts.rest_given parts.prefix_trimmed
          parts.rest_trimmed)
        (append_left-is_empty p (b'/' ∷ m) parts.prefix_given)
        (ap (λ r. is_empty r.model) split ∙ parts.rest_given)
      ∙ ap some split)
normal-parses (unqualified m hm tm unsplit) =
    let split : infer m (split_qualified_model m) ≡ record { model = m; provider = [] } =
      rw unsplit refl in
    parse-Trimmed m tm hm (ap (λ r. is_empty r.model) split ∙ hm) ∙ ap some split

infer-IsNormal :
    (m : Text) (o : Option (Text × Text))
    → Trimmed m
    → is_empty m ≡ false
    → split_qualified_model m ≡ o
    → SplitParts o
    → IsNormal (infer m o)
unfolding infer
infer-IsNormal m none tm hm e parts = unqualified m hm tm e
infer-IsNormal m (some (prefix, rest)) tm hm e parts = qualified prefix rest parts

-- Stripping keeps a model trimmed and not empty.
strip-Parts :
    (p m : Text) (o : Option (Text × Text)) → Parts p m → SplitParts o → Parts p (strip p m o)
unfolding strip
strip-Parts p m none parts found = parts
strip-Parts p m (some (prefix, rest)) parts found = elim (Bool-cases (text_eq prefix p)) [
  | inl e ↦ rw e (record {
    prefix_given = parts.prefix_given;
    rest_given = found.rest_given;
    prefix_trimmed = parts.prefix_trimmed;
    rest_trimmed = found.rest_trimmed;
    plain = parts.plain;
  })
  | inr e ↦ rw e parts
]

-- The name that the parser reads an explicit provider's model from.
explicit :
    (model provider : Text)
    → is_empty (trim_space model) ≡ false
    → is_empty (trim_space provider) ≡ false
    → cut (trim_space provider) b'/' ≡ none
    → Parts
        (trim_space provider)
        (strip (trim_space provider) (trim_space model) (split_qualified_model (trim_space model)))
explicit model provider hm hp plain =
    let m = trim_space model in
    let p = trim_space provider in
    strip-Parts p m (split_qualified_model m)
      (record {
        prefix_given = hp;
        rest_given = hm;
        prefix_trimmed = trim_space-Trimmed provider;
        rest_trimmed = trim_space-Trimmed model;
        plain = plain;
      })
      (split-SplitParts m)

guarded :
    (a b : Bool) (x s : ModelSelector)
    → ◌≡◌ {A = Option ModelSelector} (if a then none else if b then none else some x) (some s)
    → (a ≡ false) × (x ≡ s)
guarded a b x s h = ground (arith, h)

parse-IsNormal :
    (model provider : Text) (s : ModelSelector)
    → cut (trim_space provider) b'/' ≡ none
    → parse_model_selector model provider ≡ some s
    → IsNormal s
unfolding parse_model_selector
parse-IsNormal model provider s plain parsed =
    let m = trim_space model in
    let p = trim_space provider in
    let split = split_qualified_model m in
    let selector : ModelSelector =
      if is_empty p then infer m split else record { model = strip p m split; provider = p } in
    let found = guarded (is_empty m) (is_empty selector.model) selector s parsed in
    subst IsNormal found.1 (elim (Bool-cases (is_empty p)) [
      | inl e ↦
          rw e (infer-IsNormal m split (trim_space-Trimmed model) found.0 refl (split-SplitParts m))
      | inr e ↦ rw e (qualified p (strip p m split) (explicit model provider found.0 e plain))
    ])

-- What ParseModelSelector answers, for any model and any provider without a slash, is what it
-- reads again from the qualified name of its answer, without a provider.
pub parse-qualified_model :
    (model provider : Text) (s : ModelSelector) (plain : cut (trim_space provider) b'/' ≡ none)
    (parsed : parse_model_selector model provider ≡ some s)
    → parse_model_selector (qualified_model s) [] ≡ some s
parse-qualified_model model provider s plain parsed =
    normal-parses (parse-IsNormal model provider s plain parsed)
