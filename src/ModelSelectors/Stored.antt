-- ===== src/ModelSelectors/Stored.antt =====
-- What NormalizeStored of internal/modelselectors/selectors.go gives, and what the selector string
-- keeps of its parts.
use thinroute.Prelude.{
  Bool, Bool-cases, Option, [], ap, arith, false, if◌then◌else◌, inl, inr, none, not, refl, some,
  subst, sym, true, ◌&&◌, ◌++◌, ◌∙◌, ◌∷◌, ◌≡◌,
}
use thinroute.ModelSelectors.{
  Selector, selector_string, stored_selector, parse_stored_parts, normalize_stored, split_first,
  is_global, selector_of, or_model, trim_parts,
}
use thinroute.Text.{trim_space, is_empty, cut, Text, text_eq, is_space, trim_left}
use thinroute.Text.Laws.{text_eq_iff}
use thinroute.Text.Trim.{
  solid, Trimmed, Trimmed-trim_space, trim_space-Trimmed, Trimmed-append, cut-append,
}
use mathlib.Core.Option.{some-injective}

trim-trim : (s : Text) → trim_space (trim_space s) ≡ trim_space s
trim-trim s = Trimmed-trim_space (trim_space s) (trim_space-Trimmed s)

nil-Trimmed : Trimmed []
unfolding solid
nil-Trimmed = (refl, refl)

empty-nil : (s : Text) → is_empty s ≡ true → s ≡ []
empty-nil [] h = refl
empty-nil (c ∷ s) h = absurd (ground arith)

-- A normalized selector: one of a provider, a model or both, each of them trimmed, with the
-- string of the two; or the selector of everything, which has neither.
pub data IsStored (r : Selector) : Type 0 where
  scoped :
      Trimmed r.provider_name
      → Trimmed r.model
      → (is_empty r.provider_name && is_empty r.model) ≡ false
      → r.selector ≡ selector_of r.provider_name r.model
      → IsStored r
  everything : r ≡ record { selector = b'/' ∷ []; provider_name = []; model = [] } → IsStored r

selector_string-Trimmed :
    (p m : Text) → Trimmed p → Trimmed m → selector_string p m ≡ selector_of p m
unfolding selector_string
selector_string-Trimmed p m hp hm = rw (Trimmed-trim_space p hp, Trimmed-trim_space m hm) refl

selector_of-is_empty : (p m : Text) → is_empty (selector_of p m) ≡ (is_empty p && is_empty m)
selector_of-is_empty [] [] = refl
selector_of-is_empty [] (c ∷ m) = refl
selector_of-is_empty (c ∷ p) [] = refl
selector_of-is_empty (c ∷ p) (d ∷ m) = refl

-- What stored_selector answers.
abbrev answer : (selector : Text) → Text × Text → Selector
answer selector (p, m) = record { selector = selector; provider_name = p; model = m }

stored-scoped :
    (selector : Text) (global : Bool) (p m : Text)
    → Trimmed p
    → Trimmed m
    → (is_empty p && is_empty m) ≡ false
    → stored_selector selector global (p, m) ≡ some (answer (selector_of p m) (p, m))
unfolding stored_selector
stored-scoped selector global p m hp hm ne =
    rw (selector_string-Trimmed p m hp hm, ne, selector_of-is_empty p m ∙ ne) refl

stored-global :
    (selector : Text) → stored_selector selector true ([], []) ≡ some (answer selector ([], []))
unfolding stored_selector selector_string
stored-global selector = rw (Trimmed-trim_space [] nil-Trimmed) refl

stored-none : (selector : Text) → stored_selector selector false ([], []) ≡ none
unfolding stored_selector selector_string
stored-none selector = refl

global_selector-IsStored :
    (selector : Text) (global : Bool) (r : Selector)
    → (global ≡ true → selector ≡ b'/' ∷ [])
    → stored_selector selector global ([], []) ≡ some r
    → IsStored r
global_selector-IsStored selector true r g e = everything (
    sym (some-injective (answer selector ([], [])) r (sym (stored-global selector) ∙ e))
    ∙ ap (λ x. answer x ([], [])) (g refl))
global_selector-IsStored selector false r g e = absurd (ground (arith, stored-none selector, e))

stored_selector-IsStored :
    (selector : Text) (global : Bool) (p m : Text) (r : Selector)
    → Trimmed p
    → Trimmed m
    → (global ≡ true → selector ≡ b'/' ∷ [])
    → stored_selector selector global (p, m) ≡ some r
    → IsStored r
stored_selector-IsStored selector global p m r hp hm g e =
    elim (Bool-cases (is_empty p && is_empty m)) [
      | inl b ↦
          let hp : p ≡ [] = empty-nil p (ground arith) in
          let hm : m ≡ [] = empty-nil m (ground arith) in
          global_selector-IsStored selector global r g (
            subst (λ x. stored_selector selector global (x, []) ≡ some r) hp
              (subst (λ x. stored_selector selector global (p, x) ≡ some r) hm e))
      | inr b ↦
          let q = stored-scoped selector global p m hp hm b in
          subst IsStored (some-injective (answer (selector_of p m) (p, m)) r (sym q ∙ e))
            (scoped hp hm b refl)
    ]

-- Both parts are trimmed.
abbrev BothTrimmed : Text × Text → Type 0
BothTrimmed (p, m) = Trimmed p × Trimmed m

or_model-BothTrimmed :
    (selector : Text) (o : Option (Text × Text))
    → Trimmed selector
    → BothTrimmed (or_model selector (trim_parts o))
or_model-BothTrimmed selector none h = (nil-Trimmed, h)
or_model-BothTrimmed selector (some (p, m)) h = (trim_space-Trimmed p, trim_space-Trimmed m)

parse_stored_parts-BothTrimmed : (raw : Text) → BothTrimmed (parse_stored_parts raw)
unfolding parse_stored_parts split_first
parse_stored_parts-BothTrimmed raw =
    let s = trim_space raw in
    elim (Bool-cases (is_global s)) [
      | inl b ↦ rw b (nil-Trimmed, nil-Trimmed)
      | inr b ↦ rw b (or_model-BothTrimmed s (cut s b'/') (trim_space-Trimmed raw))
    ]

-- A selector that NormalizeStored accepts is normalized: it is / with no parts, or its parts are
-- trimmed, not both empty, and its string is theirs.
pub normalize_stored-IsStored :
    (selector provider model : Text) (r : Selector)
    → normalize_stored selector provider model ≡ some r
    → IsStored r
unfolding normalize_stored is_global
normalize_stored-IsStored selector_in provider_in model_in r e =
    let trimmed = trim_space selector_in in
    let provider = trim_space provider_in in
    let model = trim_space model_in in
    let global = is_global trimmed in
    let selector = if is_empty trimmed then selector_string provider model else trimmed in
    let slash : global ≡ true → selector ≡ b'/' ∷ [] = λ g.
      let t : trimmed ≡ b'/' ∷ [] =
        sym (trim-trim selector_in) ∙ (text_eq_iff (trim_space trimmed) (b'/' ∷ [])).0 g in
      rw t refl in
    elim (Bool-cases (is_empty selector)) [
      | inl b ↦ absurd (ground (arith, e, b))
      | inr b ↦ elim (Bool-cases (is_empty provider && is_empty model && not global)) [
        | inl c ↦
            let (hp, hm) = parse_stored_parts-BothTrimmed selector in
            let q = parse_stored_parts selector in
            stored_selector-IsStored selector global q.0 q.1 r hp hm slash
              (sym (rw (b, c) refl) ∙ e)
        | inr c ↦
            stored_selector-IsStored selector global provider model r
              (trim_space-Trimmed provider_in) (trim_space-Trimmed model_in) slash
              (sym (rw (b, c) refl) ∙ e)
      ]
    ]

slash_again :
    normalize_stored (b'/' ∷ []) [] []
    ≡ some (record { selector = b'/' ∷ []; provider_name = []; model = [] })
unfolding normalize_stored is_global stored_selector selector_string trim_space trim_left is_space
    text_eq
slash_again = refl

IsStored-again :
    (r : Selector) → IsStored r → normalize_stored r.selector r.provider_name r.model ≡ some r
unfolding normalize_stored
IsStored-again r (everything h) = rw h slash_again
IsStored-again r (scoped hp hm ne q) =
    let p = r.provider_name in
    let m = r.model in
    let t = trim_space r.selector in
    let s = if is_empty t then selector_string p m else t in
    let string : selector_string p m ≡ selector_of p m = selector_string-Trimmed p m hp hm in
    let full : is_empty s ≡ false =
      ground (arith, ap is_empty string, selector_of-is_empty p m, ne) in
    rw (Trimmed-trim_space p hp, Trimmed-trim_space m hm, ne, full)
      (stored-scoped s (is_global t) p m hp hm ne ∙ ap (λ x. some (answer x (p, m))) (sym q))

-- NormalizeStored leaves a selector that it has accepted as it is.
pub normalize_stored-again :
    (selector provider model : Text) (r : Selector)
    → normalize_stored selector provider model ≡ some r
    → normalize_stored r.selector r.provider_name r.model ≡ some r
normalize_stored-again selector provider model r e =
    IsStored-again r (normalize_stored-IsStored selector provider model r e)

not_slash : (p m : Text) → is_empty p ≡ false → text_eq (p ++ b'/' ∷ m) (b'/' ∷ []) ≡ false
unfolding text_eq
not_slash [] m h = absurd (ground arith)
not_slash (c ∷ []) m h = ground arith
not_slash (c ∷ d ∷ p) m h = ground arith

selector-Trimmed :
    (p m : Text) → is_empty p ≡ false → Trimmed p → Trimmed m → Trimmed (p ++ b'/' ∷ m)
unfolding solid is_space
selector-Trimmed p [] ne hp hm = Trimmed-append p (b'/' ∷ []) [] ne refl hp (refl, refl)
selector-Trimmed p (c ∷ m) ne hp hm = Trimmed-append p (c ∷ m) (b'/' ∷ []) ne refl hp hm

selector_of-provider : (p m : Text) → is_empty p ≡ false → selector_of p m ≡ p ++ b'/' ∷ m
selector_of-provider [] m h = absurd (ground arith)
selector_of-provider (c ∷ p) [] h = refl
selector_of-provider (c ∷ p) (d ∷ m) h = refl

-- ParseStoredParts takes apart what String puts together, if there is a provider, and the
-- provider has no slash.
pub parse_stored_parts-selector_string :
    (provider model : Text)
    → is_empty provider ≡ false
    → cut provider b'/' ≡ none
    → Trimmed provider
    → Trimmed model
    → parse_stored_parts (selector_string provider model) ≡ (provider, model)
unfolding parse_stored_parts is_global split_first
parse_stored_parts-selector_string p m ne no_slash hp hm =
    let s = p ++ b'/' ∷ m in
    let string : selector_string p m ≡ s =
      selector_string-Trimmed p m hp hm ∙ selector_of-provider p m ne in
    let trim : trim_space s ≡ s = Trimmed-trim_space s (selector-Trimmed p m ne hp hm) in
    rw string (
      rw trim (
        rw trim (
          rw
            (
              not_slash p m ne,
              cut-append p m b'/' no_slash,
              Trimmed-trim_space p hp,
              Trimmed-trim_space m hm,
            )
            refl)))
