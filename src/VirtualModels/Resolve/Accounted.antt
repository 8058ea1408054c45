-- ===== src/VirtualModels/Resolve/Accounted.antt =====
-- Where an answer of resolveRequested of internal/virtualmodels/resolve.go comes from.
use thinroute.Prelude.{
  All, Bool, Bool-cases, List, Option, [], ap, arith, false, if◌then◌else◌, inl, inr, length, ltb,
  none, refl, some, subst, sym, true, ℕ, ◌+◌, ◌<◌, ◌^◌, ◌∙◌, ◌∷◌, ◌≡◌, ◌⊎◌,
}
use thinroute.Balancer.{Weights, ResolvedTarget, viable_targets, supported_targets}
use thinroute.Map.{lookup}
use thinroute.Selector.{ModelSelector}
use thinroute.Text.{Text, trim_space, is_empty}
use thinroute.Balancer.Strategies.{Floats}
use thinroute.Map.Laws.{lookup-All}
use thinroute.Selector.Requested.{RequestedModelSelector, normalize}
use thinroute.VirtualModels.Balanced.{
  choose, Conditions, BalancerState, no_target, balanced_resolution,
}
use thinroute.VirtualModels.Paths.{user_path_allowed}
use thinroute.VirtualModels.Resolve.{
  Answer, through, resolve_normalized, resolve_requested, invalid_selector, literal, answer_to,
  resolution,
}
use thinroute.VirtualModels.Snapshot.{
  ModelSnapshot, find_redirect, RedirectEntry, if_applies, applies,
}
use thinroute.VirtualModels.Balanced.Picked.{PickedOne, choose-PickedOne}
use thinroute.VirtualModels.Resolve.Supported.{
  Supported, viable_targets-All, supported_targets-Supported,
}
use thinroute.VirtualModels.Snapshot.Built.{IsBuilt, Keyed}
use mathlib.Core.Option.{some-injective}

module _ (ws : Weights) (fl : Floats ws) (negative : ws.F → Bool) where
  -- The user is in the scope of the entry, where scopes are enforced.
  abbrev pub InScope : (user_path : Text) → (enforce : Bool) → RedirectEntry ws negative → Type 0
  InScope user_path enforce e =
      (enforce ≡ false)
      ⊎ ((length e.vm.user_paths ≡ 0) ⊎ (user_path_allowed user_path e.vm.user_paths ≡ true))

  -- The answer is accounted for: an error for a selector that does not parse, the requested selector
  -- itself, or a target of the enabled redirect of that name whose model the catalog has, for a user
  -- in the scope of the redirect and a request without an explicit provider.
  pub data Accounted (s : ModelSnapshot ws negative) (available : Text → Bool)
      (requested : RequestedModelSelector) (user_path : Text) (enforce : Bool)
      : Answer → Type 0 where
    unparsed :
        normalize requested ≡ none
        → Accounted s available requested user_path enforce invalid_selector
    as_requested :
        (selector : ModelSelector)
        → normalize requested ≡ some selector
        → Accounted s available requested user_path enforce (literal selector)
    redirected :
        (selector : ModelSelector) (e : RedirectEntry ws negative) (t : ResolvedTarget ws)
        → normalize requested ≡ some selector
        → requested.explicit_provider ≡ false
        → lookup (trim_space requested.model) s.redirects ≡ some e
        → e.vm.source ≡ trim_space requested.model
        → e.vm.enabled ≡ true
        → InScope user_path enforce e
        → Supported ws available e.targets t
        → Accounted s available requested user_path enforce (
            resolution
              (record { requested = selector; resolved = t.selector; source = e.vm.source })
              true)

  choose-or_none :
      (Q : ResolvedTarget ws → Type 0) (k : Conditions ws fl) (source strategy : Text)
      (viable : List (ResolvedTarget ws)) (st : BalancerState ws fl)
      → ((n i : ℕ) → k.drawn n ≡ some i → i < n)
      → st.tie_counter + 1 < 2 ^ 63
      → All Q viable
      → ((choose ws fl k source strategy viable st).0 ≡ no_target)
        ⊎ PickedOne ws fl Q (choose ws fl k source strategy viable st)
  unfolding choose
  choose-or_none Q k source strategy [] st drawn few h = inl refl
  choose-or_none Q k source strategy (t ∷ ts) st drawn few h =
      inr (choose-PickedOne ws fl Q k source strategy (t ∷ ts) st drawn few h (omega arith))

  if_applies-some :
      (user_path : Text) (enforce : Bool) (o : Option (RedirectEntry ws negative))
      (e : RedirectEntry ws negative)
      → if_applies ws negative user_path enforce o ≡ some e
      → (o ≡ some e) × (applies ws negative user_path enforce e ≡ true)
  if_applies-some user_path enforce none e h = absurd (ground arith)
  if_applies-some user_path enforce (some x) e h =
      elim (Bool-cases (applies ws negative user_path enforce x)) [
        | inl b ↦
            let same : x ≡ e = some-injective x e (sym (rw b refl) ∙ h) in
            (ap some same, subst (λ y. applies ws negative user_path enforce y ≡ true) same b)
        | inr b ↦ absurd (ground arith)
      ]

  applies-InScope :
      (user_path : Text) (enforce : Bool) (e : RedirectEntry ws negative)
      → applies ws negative user_path enforce e ≡ true
      → (e.vm.enabled ≡ true) × InScope user_path enforce e
  applies-InScope user_path false e h = (ground (arith, h), inl refl)
  applies-InScope user_path true e h = elim (Bool-cases (ltb 0 (length e.vm.user_paths))) [
    | inl b ↦ (ground (arith, h, b), inr (inr (ground (arith, h, b))))
    | inr b ↦ (ground (arith, h, b), inr (inl (ground (arith, b))))
  ]

  find_redirect-some :
      (s : ModelSnapshot ws negative) (name user_path : Text) (enforce : Bool)
      (e : RedirectEntry ws negative)
      → find_redirect ws negative s name user_path enforce ≡ some e
      → (lookup (trim_space name) s.redirects ≡ some e)
        × (applies ws negative user_path enforce e ≡ true)
  unfolding find_redirect
  find_redirect-some s name user_path enforce e h = elim (Bool-cases (is_empty (trim_space name))) [
    | inl b ↦ absurd (ground arith)
    | inr b ↦
        if_applies-some user_path enforce (lookup (trim_space name) s.redirects) e
          (sym (rw b refl) ∙ h)
  ]

  module _ (s : ModelSnapshot ws negative) (k : Conditions ws fl) (available : Text → Bool)
      (requested : RequestedModelSelector) (user_path : Text) (enforce : Bool)
      (built : IsBuilt ws negative s) (catalog : k.available ≡ some available)
      (drawn : (n i : ℕ) → k.drawn n ≡ some i → i < n) where
    entry-Accounted :
        (selector : ModelSelector) (e : RedirectEntry ws negative) (st : BalancerState ws fl)
        → st.tie_counter + 1 < 2 ^ 63
        → normalize requested ≡ some selector
        → requested.explicit_provider ≡ false
        → find_redirect ws negative s requested.model user_path enforce ≡ some e
        → Accounted s available requested user_path enforce (
            answer_to ws fl negative selector e.vm.source
              (balanced_resolution ws fl k e.vm.source e.strategy e.targets st).0)
    unfolding balanced_resolution
    entry-Accounted selector e st few parsed implicit found =
        let viable = viable_targets ws k.capacity (supported_targets ws k.available e.targets) in
        let all_supported : All (Supported ws available e.targets) viable =
          viable_targets-All ws (Supported ws available e.targets) k.capacity
            (supported_targets ws k.available e.targets)
            (subst (λ a. All (Supported ws available e.targets) (supported_targets ws a e.targets))
              (sym catalog) (supported_targets-Supported ws available e.targets)) in
        let (at, ok) = find_redirect-some s requested.model user_path enforce e found in
        let (on, scope) = applies-InScope user_path enforce e ok in
        let (key, _) =
          lookup-All (Keyed ws negative) (trim_space requested.model) e s.redirects built.keyed
            at in
        elim (choose-or_none (Supported ws available e.targets) k e.vm.source e.strategy viable st
          drawn few all_supported) [
            | inl none_left ↦ rw none_left (as_requested selector parsed)
            | inr (t, (shown, q)) ↦
                rw shown (redirected selector e t parsed implicit at (sym key) on scope q)
          ]

    through-Accounted :
        (selector : ModelSelector) (found : Option (RedirectEntry ws negative))
        (st : BalancerState ws fl)
        → st.tie_counter + 1 < 2 ^ 63
        → normalize requested ≡ some selector
        → requested.explicit_provider ≡ false
        → find_redirect ws negative s requested.model user_path enforce ≡ found
        → Accounted s available requested user_path enforce
            (through ws fl negative k selector found st).0
    unfolding through
    through-Accounted selector none st few parsed implicit found = as_requested selector parsed
    through-Accounted selector (some e) st few parsed implicit found =
        entry-Accounted selector e st few parsed implicit found

    normalized-Accounted :
        (o : Option ModelSelector) (st : BalancerState ws fl)
        → st.tie_counter + 1 < 2 ^ 63
        → normalize requested ≡ o
        → Accounted s available requested user_path enforce
            (resolve_normalized ws fl negative s k requested user_path enforce o st).0
    unfolding resolve_normalized
    normalized-Accounted none st few parsed = unparsed parsed
    normalized-Accounted (some selector) st few parsed =
        let redirect = find_redirect ws negative s requested.model user_path enforce in
        let on = through ws fl negative k selector redirect st in
        let Goal : Bool → Type 0 = λ x.
          Accounted s available requested user_path enforce
            (if x then (literal selector, st) else on).0 in
        elim (Bool-cases requested.explicit_provider) [
          | inl b ↦ subst Goal (sym b) (as_requested selector parsed)
          | inr b ↦ subst Goal (sym b) (through-Accounted selector redirect st few parsed b refl)
        ]

    -- resolveRequested answers an error only for a selector that does not parse; it changes the
    -- selector only for a request without an explicit provider, and then to a target of the enabled
    -- redirect whose source is the trimmed name, whose model the catalog has, for a user in the scope
    -- of the redirect (where scopes are enforced); else it leaves the selector as it is. It never
    -- panics. Conditions: the snapshot is one that buildSnapshot builds, the service has a catalog,
    -- the random index is below the number that it is asked for, and the least-used balancer has
    -- broken fewer than 2 ^ 63 - 1 ties.
    pub resolve_requested-Accounted :
        (st : BalancerState ws fl) (few : st.tie_counter + 1 < 2 ^ 63)
        → Accounted s available requested user_path enforce
            (resolve_requested ws fl negative s k requested user_path enforce st).0
    unfolding resolve_requested
    resolve_requested-Accounted st few = normalized-Accounted (normalize requested) st few refl
