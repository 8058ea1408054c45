-- ===== src/VirtualModels/Tests.antt =====
-- Runs of the virtual models, with whole numbers as weights and prices.
use thinroute.Balancer.Pools.{Eligible}
use thinroute.Prelude.{
  All, Bool, List, String, [], arith, false, if◌then◌else◌, leb, ltb, none, refl, some, true, ℕ,
  ◌*◌, ◌+◌, ◌<◌, ◌==◌, ◌↔◌, ◌∷◌, ◌≡◌,
}
use thinroute.Balancer.{
  normalize_weight, slot_index, is_weighted, total_weight, weighted_index, targets_with_capacity,
  supported_targets, viable_targets, Weights, ResolvedTarget,
}
use thinroute.Map.{lookup, insert, remove}
use thinroute.ModelSelectors.{
  normalize_stored, is_global, stored_selector, selector_string, parse_stored_parts, split_first,
  scope_kind_for, exact_match_key,
}
use thinroute.Selector.{ModelSelector, parse_model_selector, split_qualified_model, qualified_model}
use thinroute.Text.{
  contains, codes, Text, trim_space, trim_left, is_space, text_eq, cut, to_lower, to_lower_rune,
  has_prefix, text_lt,
}
use thinroute.UserPath.{
  normalize_user_path, canonical_segments, joined_path, is_dots, user_path_ancestors, ancestors_of,
  climb, parent, above,
}
use thinroute.VirtualModels.{
  Target, VirtualModel, valid, invalid, duplicate_target, Checked, normalize_strategy,
  valid_strategy, auto_strategy,
}
use thinroute.Balancer.LeastUsed.{next_target}
use thinroute.Balancer.Strategies.{
  Floats, cheapest_target, cheapest_from, target_cost, weighted_next_target, weights_from,
  weighted_from, random_next_target, health_aware_next_target, health_weights, health_total,
  healthy_from,
}
use thinroute.Selector.Requested.{RequestedModelSelector, normalize, new_requested_model_selector}
use thinroute.Text.Order.{Ordered, sort_texts}
use thinroute.Text.Search.{binary_search}
use thinroute.Text.Split.{split, join_texts, separated, last_index}
use thinroute.UserPath.Normal.{IsSegment, path_of}
use thinroute.VirtualModels.Access.{validate_model_access, allows_model, effective_state}
use thinroute.VirtualModels.Balanced.{
  by_strategy, load_count, balanced_resolution, Conditions, BalancerState, choose,
}
use thinroute.VirtualModels.Paths.{
  normalize_user_paths, distinct_paths, user_path_allowed, path_allowed,
}
use thinroute.VirtualModels.Redirect.{normalize_redirect, redirect_targets, normalize_stored_policy}
use thinroute.VirtualModels.Resolve.{through, resolve_normalized, resolve_requested, resolution}
use thinroute.VirtualModels.Snapshot.{
  matching_policy, resolve_redirect, find_redirect, ModelSnapshot, build_snapshot, add_rows,
  add_row, add_redirect, add_policy, empty_snapshot,
}
use thinroute.VirtualModels.Snapshot.Filed.{policies}
use thinroute.VirtualModels.Snapshot.Entries.{entries, last_entry}
use thinroute.VirtualModels.Access.Rule.{first_row, covering}
use thinroute.VirtualModels.Balanced.Picked.{PickedOne, balanced_resolution-Eligible}
use thinroute.VirtualModels.Paths.Allowed.{Granted, user_path_allowed-Granted}
use thinroute.VirtualModels.Redirect.Distinct.{IsRedirect, normalize_redirect-IsRedirect}
use thinroute.VirtualModels.Resolve.Accounted.{Accounted, resolve_requested-Accounted}
use thinroute.VirtualModels.Snapshot.Built.{IsBuilt, build_snapshot-IsBuilt}

abbrev whole : Weights
whole = record { F = ℕ; not_positive = λ w. w == 0; rounded = λ w. w }

abbrev never : ℕ → Bool
never w = false

abbrev numbers : Floats whole
numbers = record {
  zero_float = 0;
  one_float = 1;
  two_float = 2;
  five_float = 5;
  add = λ a b. a + b;
  times = λ a b. a * b;
  lt = λ a b. ltb a b;
  le = λ a b. leb a b;
}

program : Unit {0}
unfolding normalize_stored is_global stored_selector selector_string trim_space trim_left is_space
    text_eq parse_stored_parts split_first cut to_lower to_lower_rune scope_kind_for exact_match_key
    lookup insert remove normalize_user_paths distinct_paths normalize_user_path canonical_segments
    joined_path split is_dots contains has_prefix join_texts separated sort_texts user_path_allowed
    path_allowed user_path_ancestors ancestors_of climb parent above last_index binary_search
    normalize_redirect redirect_targets normalize_strategy valid_strategy auto_strategy
    normalize_stored_policy parse_model_selector split_qualified_model qualified_model
    build_snapshot add_rows add_row add_redirect add_policy empty_snapshot find_redirect
    resolve_redirect matching_policy effective_state allows_model validate_model_access
    resolve_requested resolve_normalized through balanced_resolution choose by_strategy
    viable_targets supported_targets targets_with_capacity weighted_index total_weight is_weighted
    slot_index normalize_weight next_target load_count cheapest_target cheapest_from target_cost
    normalize new_requested_model_selector weighted_next_target weights_from weighted_from text_lt
    random_next_target health_aware_next_target health_weights health_total healthy_from
program = tt

abbrev target : String → String → Target whole
target provider model = record {
  provider = codes provider;
  model = codes model;
  weight = 1;
  fallback_only = false;
}

abbrev row : String → List (Target whole) → List Text → VirtualModel whole
row source targets paths = record {
  source = codes source;
  targets = targets;
  strategy = codes "cost";
  provider_name = [];
  model = [];
  user_paths = paths;
  description = [];
  enabled = true;
  managed = false;
}

abbrev smart : VirtualModel whole
smart =
    row " smart " (target "groq" "llama" ∷ target "openai" "gpt" ∷ [])
      (codes "team" ∷ codes "/team/" ∷ [])

abbrev policy : VirtualModel whole
policy = row "groq/" [] (codes "/ops" ∷ [])

abbrev stored : VirtualModel whole × List (Target whole × ModelSelector)
stored = (
  row "smart" (target "groq" "llama" ∷ target "openai" "gpt" ∷ []) (codes "/team" ∷ []),
  (target "groq" "llama", record { model = codes "llama"; provider = codes "groq" })
      ∷ (target "openai" "gpt", record { model = codes "gpt"; provider = codes "openai" })
      ∷ [],
)

normalized : normalize_redirect whole never smart ≡ valid stored
unfolding program
normalized = refl

normalize_redirect-IsRedirect_example : IsRedirect whole never stored
normalize_redirect-IsRedirect_example =
    normalize_redirect-IsRedirect whole never smart stored normalized

-- A second target of the same name is refused.
duplicate :
    normalize_redirect whole never
      (row "s" (target "" "groq/llama" ∷ target "groq" "llama" ∷ []) [])
    ≡ invalid duplicate_target
unfolding program
duplicate = refl

abbrev built_from : Checked (ModelSnapshot whole never) → ModelSnapshot whole never
built_from (valid s) = s
built_from (invalid e) = record {
  redirects = [];
  order = [];
  by_source = [];
  global = none;
  exact = [];
  provider_wide = [];
  model_wide = [];
  default_enable = false;
}

-- The policy row of the provider covers its models.
policy_covers :
    first_row whole never (
      covering whole never
        (policies whole never (smart ∷ policy ∷ []))
        (codes "groq")
        (codes "llama"))
    ≡ some (record policy { provider_name = codes "groq"; user_paths = codes "/ops" ∷ [] })
unfolding program policies
policy_covers = refl

abbrev the_snapshot : ModelSnapshot whole never
unfolding program
the_snapshot = built_from (build_snapshot whole never (smart ∷ policy ∷ []) true)

built : build_snapshot whole never (smart ∷ policy ∷ []) true ≡ valid the_snapshot
unfolding program the_snapshot
built = refl

build_snapshot-IsBuilt_example :
    IsBuilt whole never the_snapshot
    × Ordered the_snapshot.order
    × ((k : Text)
        → lookup k the_snapshot.redirects
          ≡ last_entry whole never k (entries whole never (smart ∷ policy ∷ [])) none)
build_snapshot-IsBuilt_example =
    build_snapshot-IsBuilt whole never (smart ∷ policy ∷ []) true the_snapshot built

user_path_allowed-Granted_example :
    (ws : List Text) × ((All IsSegment ws × (codes "/team/alice" ≡ path_of ws))
      × ((user_path_allowed (codes "team/alice") (codes "/ops" ∷ codes "/team" ∷ []) ≡ true)
          ↔ Granted ws (codes "/ops" ∷ codes "/team" ∷ [])))
unfolding program
user_path_allowed-Granted_example =
    user_path_allowed-Granted (codes "team" ∷ codes "ops/" ∷ []) (codes "/ops" ∷ codes "/team" ∷ [])
      (codes "team/alice") (codes "/team/alice") refl refl refl

-- The user is allowed by the row for a path above its own.
allowed : user_path_allowed (codes "team/alice") (codes "/ops" ∷ codes "/team" ∷ []) ≡ true
unfolding program
allowed = refl

abbrev meets : Conditions whole numbers
meets = record {
  available = some (λ m. true);
  capacity = none;
  pricing =
      λ m. if text_eq m (codes "openai/gpt") then some (some 1, some 2) else some (some 5, none);
  health = [];
  now = 0;
  uniform = 0;
  drawn = λ n. none;
}

abbrev idle : BalancerState whole numbers
idle = record { counters = []; in_flight = []; tie_counter = 0 }

abbrev asked : RequestedModelSelector
asked = record { model = codes "smart"; provider_hint = []; explicit_provider = false }

-- The cheaper target is taken.
cheaper_target :
    (resolve_requested whole numbers never the_snapshot meets asked
      (codes "/team/alice")
      true
      idle).0
    ≡ resolution
        (record {
          requested = record { model = codes "smart"; provider = [] };
          resolved = record { model = codes "gpt"; provider = codes "openai" };
          source = codes "smart";
        })
        true
unfolding program the_snapshot text_eq
cheaper_target = refl

none_drawn : (n i : ℕ) → meets.drawn n ≡ some i → i < n
none_drawn n i h = absurd (ground arith)

resolve_requested-Accounted_example :
    Accounted whole numbers never the_snapshot
      (λ m. true)
      asked
      (codes "/team/alice")
      true
      (resolve_requested whole numbers never the_snapshot meets asked
        (codes "/team/alice")
        true
        idle).0
resolve_requested-Accounted_example =
    resolve_requested-Accounted whole numbers never the_snapshot meets (λ m. true) asked
      (codes "/team/alice") true build_snapshot-IsBuilt_example.0 refl none_drawn idle (omega arith)

abbrev resolved : String → ResolvedTarget whole
resolved model = record {
  selector = record { model = codes model; provider = [] };
  qualified = codes model;
  weight = 1;
  fallback_only = false;
}

balanced_resolution-Eligible_example :
    PickedOne whole numbers (Eligible whole (λ t. t.weight ≡ 1) (λ m. true)) (
      balanced_resolution whole numbers
        (record meets { capacity = some (λ m. true) })
        []
        (codes "auto/fast")
        (resolved "a" ∷ resolved "b" ∷ [])
        idle)
unfolding program
balanced_resolution-Eligible_example =
    balanced_resolution-Eligible whole numbers (λ t. t.weight ≡ 1)
      (record meets { capacity = some (λ m. true) }) (λ m. true) [] (codes "auto/fast")
      (resolved "a" ∷ resolved "b" ∷ []) idle refl none_drawn (omega arith) (refl, (refl, tt))
      (omega arith)
