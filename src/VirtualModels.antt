-- ===== src/VirtualModels.antt =====
-- internal/virtualmodels: rows that redirect a name to models, or that say who may use models.
-- This file has the types and the strategies of types.go, and the errors. Times of creation and
-- update are left out: no modelled operation reads them. `ws` and `negative` stand for float64: its
-- operations that the balancer uses, and the test `weight < 0`.
pub mod Paths
pub mod Redirect
pub mod Snapshot
pub mod Balanced
pub mod Resolve
pub mod Access
pub mod Service
mod Tests
use thinroute.Text.Order.{mem}
use thinroute.Selector.{ModelSelector, parse_model_selector}
use thinroute.Text.{Text, to_lower, codes, trim_space, text_eq, is_empty}
use thinroute.Balancer.{Weights}
use thinroute.Prelude.{Bool, List, Option, [], if◌then◌else◌, length, ltb, ◌/◌, ◌∷◌}

pub data ValidationError : Type 0 where
  source_required unknown_strategy target_required target_model_required : ValidationError
  negative_weight invalid_target duplicate_target invalid_user_paths selector_required :
      ValidationError

pub data Checked {ℓ} (A : Type ℓ) : Type ℓ where
  valid : A → Checked A
  invalid : ValidationError → Checked A

infixl 20 ◌>>=◌
abbrev pub ◌>>=◌ {ℓ κ} : {A : Type ℓ} {B : Type κ} → Checked A → (A → Checked B) → Checked B
valid a >>= f = f a
invalid e >>= f = invalid e

module _ (ws : Weights) where
  pub record Target : Type 0 where
    pub provider : Text
    pub model : Text
    pub weight : ws.F
    pub fallback_only : Bool

  pub record VirtualModel : Type 0 where
    pub source : Text
    pub targets : List Target
    pub strategy : Text
    pub provider_name : Text
    pub model : Text
    pub user_paths : List Text
    pub description : Text
    pub enabled : Bool
    pub managed : Bool

  -- IsRedirect
  abbrev pub is_redirect : VirtualModel → Bool
  is_redirect v = ltb 0 (length v.targets)

  -- The method selector of Target.
  abbrev pub target_selector : Target → Option ModelSelector
  target_selector t = parse_model_selector t.model t.provider

-- The constants Strategy….
abbrev pub strategy_round_robin : Text
strategy_round_robin = codes "round_robin"

abbrev pub strategy_cost : Text
strategy_cost = codes "cost"

abbrev pub strategy_weighted : Text
strategy_weighted = codes "weighted"

abbrev pub strategy_random : Text
strategy_random = codes "random"

abbrev pub strategy_least_used : Text
strategy_least_used = codes "least_used"

abbrev pub strategy_health_aware : Text
strategy_health_aware = codes "health_aware"

abbrev pub strategy_auto : Text
strategy_auto = codes "auto"

abbrev pub strategy_auto_fast : Text
strategy_auto_fast = codes "auto/fast"

abbrev pub strategy_auto_cheap : Text
strategy_auto_cheap = codes "auto/cheap"

-- normalizeStrategy
unfoldable pub normalize_strategy : Text → Text
normalize_strategy raw =
    let strategy = to_lower (trim_space raw) in
    if is_empty strategy then strategy_round_robin else strategy

-- The names that validStrategy lists.
abbrev pub strategies : List Text
strategies =
    strategy_round_robin ∷ strategy_cost ∷ strategy_weighted ∷ strategy_random ∷ strategy_least_used
    ∷ strategy_health_aware ∷ strategy_auto ∷ strategy_auto_fast ∷ strategy_auto_cheap ∷ []

-- validStrategy
unfoldable pub valid_strategy : Text → Bool
valid_strategy strategy = mem (normalize_strategy strategy) strategies

-- autoStrategy
unfoldable pub auto_strategy : Text → Text
auto_strategy raw =
    let strategy = normalize_strategy raw in
    if text_eq strategy strategy_auto
    then strategy_health_aware
    else if text_eq strategy strategy_auto_fast
    then strategy_least_used
    else if text_eq strategy strategy_auto_cheap
    then strategy_cost
    else strategy
