-- ===== src/VirtualModels/Snapshot/Filed.antt =====
-- Where buildSnapshot of internal/virtualmodels/snapshot.go files the policy rows.
use thinroute.Prelude.{
  Bool, Bool-cases, List, Option, [], ap, false, if◌then◌else◌, inl, inr, none, refl, some, sym,
  true, ◌∙◌, ◌∷◌, ◌≡◌,
}
use thinroute.Balancer.{Weights}
use thinroute.Map.{insert, lookup}
use thinroute.Map.Laws.{lookup-insert}
use thinroute.ModelSelectors.{
  ScopeKind, scope_kind_for, exact_match_key, scope_global, scope_provider_model, scope_provider,
  scope_model,
}
use thinroute.Text.{Text, text_eq}
use thinroute.VirtualModels.{Checked, VirtualModel, invalid, is_redirect, valid}
use thinroute.VirtualModels.Paths.Allowed.{valid-injective, bind-valid}
use thinroute.VirtualModels.Redirect.{normalize_redirect, normalize_stored_policy}
use thinroute.VirtualModels.Snapshot.{
  ModelSnapshot, add_policy, add_redirect, add_row, add_rows, add_scoped, build_snapshot,
  empty_snapshot,
}

module _ (ws : Weights) (negative : ws.F → Bool) where
  -- The policy rows among the rows, normalized, in their order.
  abbrev pub with_policy :
      Checked (VirtualModel ws) → List (VirtualModel ws) → List (VirtualModel ws)
  with_policy (valid vm) rest = vm ∷ rest
  with_policy (invalid e) rest = rest

  unfoldable pub policies : List (VirtualModel ws) → List (VirtualModel ws)
  policies [] = []
  policies (row ∷ rows) =
      let rest = policies rows in
      if is_redirect ws row
      then rest
      else with_policy (normalize_stored_policy ws negative row) rest

  -- A policy row of the second scope is one of the first scope and the given key.
  abbrev pub is_at : ScopeKind → ScopeKind → Text → VirtualModel ws → Bool
  is_at scope_global scope_global k vm = true
  is_at scope_global scope_provider_model k vm = false
  is_at scope_global scope_provider k vm = false
  is_at scope_global scope_model k vm = false
  is_at scope_provider_model scope_global k vm = false
  is_at scope_provider_model scope_provider_model k vm =
      text_eq (exact_match_key vm.provider_name vm.model) k
  is_at scope_provider_model scope_provider k vm = false
  is_at scope_provider_model scope_model k vm = false
  is_at scope_provider scope_global k vm = false
  is_at scope_provider scope_provider_model k vm = false
  is_at scope_provider scope_provider k vm = text_eq vm.provider_name k
  is_at scope_provider scope_model k vm = false
  is_at scope_model scope_global k vm = false
  is_at scope_model scope_provider_model k vm = false
  is_at scope_model scope_provider k vm = false
  is_at scope_model scope_model k vm = text_eq vm.model k

  abbrev pub covers : ScopeKind → Text → VirtualModel ws → Bool
  covers kind k vm = is_at kind (scope_kind_for vm.source vm.provider_name vm.model) k vm

  -- The last of the policy rows of a scope and a key, or the row before them.
  abbrev pub last_of :
      ScopeKind
      → Text
      → List (VirtualModel ws)
      → Option (VirtualModel ws)
      → Option (VirtualModel ws)
  last_of kind k [] before = before
  last_of kind k (vm ∷ rows) before =
      last_of kind k rows (if covers kind k vm then some vm else before)

  -- What the snapshot has for a scope and a key.
  abbrev pub filed : ModelSnapshot ws negative → ScopeKind → Text → Option (VirtualModel ws)
  filed s scope_global k = s.global
  filed s scope_provider_model k = lookup k s.exact
  filed s scope_provider k = lookup k s.provider_wide
  filed s scope_model k = lookup k s.model_wide

  add_scoped-filed :
      (kind scope : ScopeKind) (k : Text) (vm : VirtualModel ws) (s : ModelSnapshot ws negative)
      → filed (add_scoped ws negative scope vm s) kind k
        ≡ (if is_at kind scope k vm then some vm else filed s kind k)
  add_scoped-filed scope_global scope_global k vm s = refl
  add_scoped-filed scope_global scope_provider_model k vm s = refl
  add_scoped-filed scope_global scope_provider k vm s = refl
  add_scoped-filed scope_global scope_model k vm s = refl
  add_scoped-filed scope_provider_model scope_global k vm s = refl
  add_scoped-filed scope_provider_model scope_provider_model k vm s =
      lookup-insert (exact_match_key vm.provider_name vm.model) k vm s.exact
  add_scoped-filed scope_provider_model scope_provider k vm s = refl
  add_scoped-filed scope_provider_model scope_model k vm s = refl
  add_scoped-filed scope_provider scope_global k vm s = refl
  add_scoped-filed scope_provider scope_provider_model k vm s = refl
  add_scoped-filed scope_provider scope_provider k vm s =
      lookup-insert (vm.provider_name) k vm s.provider_wide
  add_scoped-filed scope_provider scope_model k vm s = refl
  add_scoped-filed scope_model scope_global k vm s = refl
  add_scoped-filed scope_model scope_provider_model k vm s = refl
  add_scoped-filed scope_model scope_provider k vm s = refl
  add_scoped-filed scope_model scope_model k vm s = lookup-insert (vm.model) k vm s.model_wide

  same_filed :
      (kind : ScopeKind) (k : Text) (s t : ModelSnapshot ws negative)
      → s.global ≡ t.global
      → s.exact ≡ t.exact
      → s.provider_wide ≡ t.provider_wide
      → s.model_wide ≡ t.model_wide
      → filed s kind k ≡ filed t kind k
  same_filed scope_global k s t g e p m = g
  same_filed scope_provider_model k s t g e p m = ap (lookup k) e
  same_filed scope_provider k s t g e p m = ap (lookup k) p
  same_filed scope_model k s t g e p m = ap (lookup k) m

  add_policy-filed :
      (kind : ScopeKind) (k : Text) (vm : VirtualModel ws) (s : ModelSnapshot ws negative)
      → filed (add_policy ws negative vm s) kind k
        ≡ (if covers kind k vm then some vm else filed s kind k)
  unfolding add_policy
  add_policy-filed kind k vm s =
      let s' : ModelSnapshot ws negative = record s {
        by_source = insert vm.source vm s.by_source;
      } in
      add_scoped-filed kind (scope_kind_for vm.source vm.provider_name vm.model) k vm s'
      ∙ ap (λ o. if covers kind k vm then some vm else o)
          (same_filed kind k s' s refl refl refl refl)

  add_row-filed :
      (kind : ScopeKind) (k : Text) (row : VirtualModel ws) (rows : List (VirtualModel ws))
      (s next : ModelSnapshot ws negative)
      → add_row ws negative row s ≡ valid next
      → last_of kind k (policies rows) (filed next kind k)
        ≡ last_of kind k (policies (row ∷ rows)) (filed s kind k)
  unfolding add_row policies add_redirect
  add_row-filed kind k row rows s next h = elim (Bool-cases (is_redirect ws row)) [
    | inl y ↦
        let (r, (e, q)) =
          bind-valid (normalize_redirect ws negative row)
            (λ r. valid (add_redirect ws negative r s)) next (sym (rw y refl) ∙ h) in
        let same = valid-injective (add_redirect ws negative r s) next q in
        rw y (
          ap (last_of kind k (policies rows)) (
            same_filed kind k next s (ap (λ (x : ModelSnapshot ws negative). x.global) (sym same))
              (ap (λ (x : ModelSnapshot ws negative). x.exact) (sym same))
              (ap (λ (x : ModelSnapshot ws negative). x.provider_wide) (sym same))
              (ap (λ (x : ModelSnapshot ws negative). x.model_wide) (sym same))))
    | inr n ↦
        let (vm, (e, q)) =
          bind-valid (normalize_stored_policy ws negative row)
            (λ vm. valid (add_policy ws negative vm s)) next (sym (rw n refl) ∙ h) in
        let same = valid-injective (add_policy ws negative vm s) next q in
        rw n (
          rw e (
            ap (last_of kind k (policies rows))
              (ap (λ x. filed x kind k) (sym same) ∙ add_policy-filed kind k vm s)))
  ]

  add_rows-filed :
      (kind : ScopeKind) (k : Text) (rows : List (VirtualModel ws))
      (s next : ModelSnapshot ws negative)
      → add_rows ws negative rows s ≡ valid next
      → filed next kind k ≡ last_of kind k (policies rows) (filed s kind k)
  unfolding add_rows policies
  add_rows-filed kind k [] s next h = ap (λ x. filed x kind k) (sym (valid-injective s next h))
  add_rows-filed kind k (row ∷ rows) s next h =
      let (mid, (e, q)) =
        bind-valid (add_row ws negative row s) (λ n. add_rows ws negative rows n) next h in
      add_rows-filed kind k rows mid next q ∙ add_row-filed kind k row rows s mid e

  empty-filed :
      (kind : ScopeKind) (k : Text) (d : Bool) → filed (empty_snapshot ws negative d) kind k ≡ none
  unfolding empty_snapshot lookup
  empty-filed scope_global k d = refl
  empty-filed scope_provider_model k d = refl
  empty-filed scope_provider k d = refl
  empty-filed scope_model k d = refl

  add_scoped-default :
      (scope : ScopeKind) (vm : VirtualModel ws) (s : ModelSnapshot ws negative)
      → (add_scoped ws negative scope vm s).default_enable ≡ s.default_enable
  add_scoped-default scope_global vm s = refl
  add_scoped-default scope_provider_model vm s = refl
  add_scoped-default scope_provider vm s = refl
  add_scoped-default scope_model vm s = refl

  add_row-default :
      (row : VirtualModel ws) (s next : ModelSnapshot ws negative)
      → add_row ws negative row s ≡ valid next
      → next.default_enable ≡ s.default_enable
  unfolding add_row add_redirect add_policy
  add_row-default row s next h = elim (Bool-cases (is_redirect ws row)) [
    | inl y ↦
        let (r, (e, q)) =
          bind-valid (normalize_redirect ws negative row)
            (λ r. valid (add_redirect ws negative r s)) next (sym (rw y refl) ∙ h) in
        ap (λ (x : ModelSnapshot ws negative). x.default_enable)
          (sym (valid-injective (add_redirect ws negative r s) next q))
    | inr n ↦
        let (vm, (e, q)) =
          bind-valid (normalize_stored_policy ws negative row)
            (λ vm. valid (add_policy ws negative vm s)) next (sym (rw n refl) ∙ h) in
        ap (λ (x : ModelSnapshot ws negative). x.default_enable)
          (sym (valid-injective (add_policy ws negative vm s) next q))
        ∙ add_scoped-default (scope_kind_for vm.source vm.provider_name vm.model) vm
            (record s { by_source = insert vm.source vm s.by_source })
  ]

  add_rows-default :
      (rows : List (VirtualModel ws)) (s next : ModelSnapshot ws negative)
      → add_rows ws negative rows s ≡ valid next
      → next.default_enable ≡ s.default_enable
  unfolding add_rows
  add_rows-default [] s next h =
      ap (λ (x : ModelSnapshot ws negative). x.default_enable) (sym (valid-injective s next h))
  add_rows-default (row ∷ rows) s next h =
      let (mid, (e, q)) =
        bind-valid (add_row ws negative row s) (λ n. add_rows ws negative rows n) next h in
      add_rows-default rows mid next q ∙ add_row-default row s mid e

  pub build_snapshot-default :
      (rows : List (VirtualModel ws)) (d : Bool) (s : ModelSnapshot ws negative)
      → build_snapshot ws negative rows d ≡ valid s
      → s.default_enable ≡ d
  unfolding build_snapshot empty_snapshot
  build_snapshot-default rows d s h =
      let (next, (e, q)) =
        bind-valid (add_rows ws negative rows (empty_snapshot ws negative d)) _ s h in
      ap (λ (x : ModelSnapshot ws negative). x.default_enable) (sym (valid-injective _ s q))
      ∙ add_rows-default rows (empty_snapshot ws negative d) next e

  -- For a scope and a key the built snapshot has the last policy row of these.
  pub build_snapshot-filed :
      (kind : ScopeKind) (k : Text) (rows : List (VirtualModel ws)) (d : Bool)
      (s : ModelSnapshot ws negative)
      → build_snapshot ws negative rows d ≡ valid s
      → filed s kind k ≡ last_of kind k (policies rows) none
  unfolding build_snapshot
  build_snapshot-filed kind k rows d s h =
      let (next, (e, q)) =
        bind-valid (add_rows ws negative rows (empty_snapshot ws negative d)) _ s h in
      let same = valid-injective _ s q in
      same_filed kind k s next (ap (λ (x : ModelSnapshot ws negative). x.global) (sym same))
        (ap (λ (x : ModelSnapshot ws negative). x.exact) (sym same))
        (ap (λ (x : ModelSnapshot ws negative). x.provider_wide) (sym same))
        (ap (λ (x : ModelSnapshot ws negative). x.model_wide) (sym same))
      ∙ (add_rows-filed kind k rows (empty_snapshot ws negative d) next e
          ∙ ap (last_of kind k (policies rows)) (empty-filed kind k d))
