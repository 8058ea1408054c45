-- ===== src/ModelSelectors/Tests.antt =====
-- Runs of the selectors of policies.
use thinroute.Prelude.{[], none, refl, some, ◌∷◌, ◌≡◌}
use thinroute.ModelSelectors.{
  normalize_stored, Selector, is_global, stored_selector, normalize_input, selector_string,
  scope_kind_for, scope_provider, parse_stored_parts, split_first, provider_name_set,
  exact_match_key,
}
use thinroute.Text.{codes, trim_space, trim_left, is_space, text_eq, cut}
use thinroute.ModelSelectors.Stored.{normalize_stored-again}

program : Unit {0}
unfolding normalize_stored is_global stored_selector selector_string trim_space trim_left is_space
    text_eq parse_stored_parts split_first cut normalize_input provider_name_set scope_kind_for
    exact_match_key
program = tt

abbrev groq : Selector
groq = record { selector = codes "groq/llama"; provider_name = codes "groq"; model = codes "llama" }

runs :
    (normalize_stored (codes " groq / llama ") [] [] ≡ some groq)
    × ((normalize_stored [] [] [] ≡ none)
        × ((normalize_input (codes "groq" ∷ []) (codes "groq/llama") ≡ some groq)
            × ((normalize_input [] (codes "groq/llama")
                  ≡ some (record {
                    selector = codes "groq/llama";
                    provider_name = [];
                    model = codes "groq/llama";
                  }))
                × (scope_kind_for (codes "groq/") (codes "groq") [] ≡ scope_provider))))
unfolding program
runs = (refl, (refl, (refl, (refl, refl))))

normalize_stored-again_example :
    normalize_stored (codes "groq/llama") (codes "groq") (codes "llama") ≡ some groq
normalize_stored-again_example = normalize_stored-again (codes " groq / llama ") [] [] groq runs.0
