-- ===== src/VirtualModels/Redirect/Distinct.antt =====
-- What a redirect row is when normalizeRedirect has accepted it.
use thinroute.Prelude.{
  All, Bool, List, Option, [], ap, arith, none, some, false, length, map, not, refl, subst, suc,
  true, ◌==◌, ◌∷◌, ◌≡◌, ◌≤◌,
}
use thinroute.Balancer.{Weights}
use thinroute.Selector.{ModelSelector, qualified_model, parse_model_selector}
use thinroute.Text.{Text, trim_space, is_empty}
use thinroute.VirtualModels.{
  ValidationError, Target, VirtualModel, valid, normalize_strategy, valid_strategy,
  target_model_required, source_required, negative_weight, unknown_strategy, target_required,
  invalid_target, target_selector, duplicate_target,
}
use thinroute.Text.Laws.{text_eq_iff}
use thinroute.Text.Order.{mem, Ordered}
use thinroute.Text.Trim.{Trimmed, trim_space-Trimmed}
use thinroute.VirtualModels.Paths.{normalize_user_paths}
use thinroute.VirtualModels.Redirect.{
  refuse, redirect_targets, normalize_redirect, trimmed_target, some_or,
}
use thinroute.VirtualModels.Paths.Allowed.{
  valid-injective, bind-valid, normalize_user_paths-Ordered,
}

abbrev pub Distinct : List Text → Type 0
Distinct [] = Unit
Distinct (x ∷ xs) = (mem x xs ≡ false) × Distinct xs

refuse-false : (b : Bool) (e : ValidationError) (u : Unit {0}) → refuse b e ≡ valid u → b ≡ false
refuse-false true e u h = absurd (ground arith)
refuse-false false e u h = refl

-- Names that are none of x and the seen ones.
abbrev Unseen : List Text → List Text → Type 0
Unseen seen names = All (λ n. mem n seen ≡ false) names

Unseen-mem : (x : Text) (seen names : List Text) → Unseen (x ∷ seen) names → mem x names ≡ false
Unseen-mem x seen [] h = refl
Unseen-mem x seen (n ∷ names) (p, h) =
    ground (arith, Unseen-mem x seen names h, text_eq_iff x n, text_eq_iff n x)

Unseen-tail : (x : Text) (seen names : List Text) → Unseen (x ∷ seen) names → Unseen seen names
Unseen-tail x seen [] h = tt
Unseen-tail x seen (n ∷ names) (p, h) = (ground (arith, p), Unseen-tail x seen names h)

some_or-some :
    {A : Type 0} (e : ValidationError) (o : Option A) (a : A) → some_or e o ≡ valid a → o ≡ some a
some_or-some e none a h = absurd (ground arith)
some_or-some e (some b) a h = ap some (valid-injective b a h)

module _ (ws : Weights) (negative : ws.F → Bool) where
  -- The selectors are parsed from the targets: from the model and the provider of each.
  abbrev pub Parsed : List (Target ws × ModelSelector) → Type 0
  Parsed ts = All (λ t. parse_model_selector t.0.model t.0.provider ≡ some t.1) ts

  abbrev pub names : List (Target ws × ModelSelector) → List Text
  names ts = map (λ t. qualified_model t.1) ts

  redirect_targets-Distinct :
      (raws : List (Target ws)) (seen : List Text) (ts : List (Target ws × ModelSelector))
      → redirect_targets ws negative raws seen ≡ valid ts
      → (Distinct (names ts) × Unseen seen (names ts)) × (length ts ≡ length raws) × Parsed ts
  unfolding redirect_targets
  redirect_targets-Distinct [] seen ts h =
      subst (λ x. (Distinct (names x) × Unseen seen (names x)) × (length x ≡ 0) × Parsed x)
        (valid-injective [] ts h) ((tt, tt), refl, tt)
  redirect_targets-Distinct (raw ∷ rest) seen ts h =
      let target = trimmed_target ws negative raw in
      let (_, (_, h1)) = bind-valid (refuse (is_empty target.model) target_model_required) _ ts h in
      let (_, (_, h2)) = bind-valid (refuse (negative target.weight) negative_weight) _ ts h1 in
      let (selector, (parse, h3)) =
        bind-valid (some_or invalid_target (target_selector ws target)) _ ts h2 in
      let name = qualified_model selector in
      let (u, (fresh, h4)) = bind-valid (refuse (mem name seen) duplicate_target) _ ts h3 in
      let (others, (e, h5)) =
        bind-valid (redirect_targets ws negative rest (name ∷ seen)) _ ts h4 in
      let ((d, unseen), len, parsed) = redirect_targets-Distinct rest (name ∷ seen) others e in
      subst
        (λ x.
          (Distinct (names x) × Unseen seen (names x)) × (length x ≡ suc (length rest)) × Parsed x)
        (valid-injective ((target, selector) ∷ others) ts h5)
        (
          (
            (Unseen-mem name seen (names others) unseen, d),
            (
              refuse-false (mem name seen) duplicate_target u fresh,
              Unseen-tail name seen (names others) unseen,
            ),
          ),
          omega (arith, len),
          (some_or-some invalid_target (target_selector ws target) selector parse, parsed),
        )

  -- A redirect row as it is stored: its source is trimmed and not empty, it has a target, no two of
  -- its targets have the same qualified name, its strategy is known, its paths are sorted, and its
  -- targets are the ones that the selectors are parsed from.
  pub record IsRedirect (r : VirtualModel ws × List (Target ws × ModelSelector)) : Type 0 where
    pub trimmed : Trimmed r.0.source
    pub named : is_empty r.0.source ≡ false
    pub some_target : 1 ≤ length r.1
    pub distinct : Distinct (names r.1)
    pub known : valid_strategy r.0.strategy ≡ true
    pub ordered : Ordered r.0.user_paths
    pub parsed : Parsed r.1
    pub same_targets : r.0.targets ≡ map (λ t. t.0) r.1

  -- A redirect row that normalizeRedirect accepts comes out with a trimmed source that is not
  -- empty, at least one target, no two targets of the same qualified name, a known strategy and
  -- sorted paths, and each selector beside it is what ParseModelSelector makes of the model and the
  -- provider of the target that it stands with.
  pub normalize_redirect-IsRedirect :
      (vm : VirtualModel ws) (r : VirtualModel ws × List (Target ws × ModelSelector))
      → normalize_redirect ws negative vm ≡ valid r
      → IsRedirect r
  unfolding normalize_redirect
  normalize_redirect-IsRedirect vm r h =
      let source = trim_space vm.source in
      let strategy = normalize_strategy vm.strategy in
      let (u, (a, h1)) = bind-valid (refuse (is_empty source) source_required) _ r h in
      let (v, (b, h2)) =
        bind-valid (refuse (not (valid_strategy strategy)) unknown_strategy) _ r h1 in
      let (w, (c, h3)) = bind-valid (refuse (length vm.targets == 0) target_required) _ r h2 in
      let (ts, (d, h4)) = bind-valid (redirect_targets ws negative vm.targets []) _ r h3 in
      let (paths, (e, h5)) = bind-valid (normalize_user_paths vm.user_paths) _ r h4 in
      let ((distinct, _), len, parsed) = redirect_targets-Distinct vm.targets [] ts d in
      let none_missing = refuse-false (length vm.targets == 0) target_required w c in
      subst IsRedirect (valid-injective _ r h5) (record {
        trimmed = trim_space-Trimmed vm.source;
        named = refuse-false (is_empty source) source_required u a;
        some_target = ground (arith, len, none_missing);
        distinct = distinct;
        known = ground (arith, refuse-false (not (valid_strategy strategy)) unknown_strategy v b);
        ordered = normalize_user_paths-Ordered vm.user_paths paths e;
        parsed = parsed;
        same_targets = refl;
      })
