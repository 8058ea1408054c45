-- ===== src/VirtualModels/Snapshot/Entries.antt =====
-- Which redirect rows buildSnapshot of internal/virtualmodels/snapshot.go makes the entries of.
use thinroute.Prelude.{
  Bool, Bool-cases, List, Option, ap, if◌then◌else◌, inl, inr, map, none, refl, some, sym, ◌∙◌, ◌∷◌,
  ◌≡◌, [],
}
use thinroute.Balancer.{Weights}
use thinroute.Map.{insert, lookup}
use thinroute.Map.Laws.{lookup-insert}
use thinroute.ModelSelectors.{
  ScopeKind, scope_kind_for, scope_global, scope_provider_model, scope_provider, scope_model,
}
use thinroute.Selector.{ModelSelector}
use thinroute.Text.{Text, text_eq}
use thinroute.VirtualModels.{Checked, Target, VirtualModel, invalid, is_redirect, valid}
use thinroute.VirtualModels.Paths.Allowed.{valid-injective, bind-valid}
use thinroute.VirtualModels.Redirect.{normalize_redirect, normalize_stored_policy}
use thinroute.VirtualModels.Snapshot.{
  ModelSnapshot, RedirectEntry, add_policy, add_redirect, add_row, add_rows, add_scoped,
  build_snapshot, empty_snapshot, resolved_target,
}

module _ (ws : Weights) (negative : ws.F → Bool) where
  abbrev entry_of : VirtualModel ws × List (Target ws × ModelSelector) → RedirectEntry ws negative
  entry_of (vm, ts) = record {
    vm = vm;
    targets = map (resolved_target ws negative) ts;
    strategy = vm.strategy;
  }

  abbrev with_entry :
      Checked (VirtualModel ws × List (Target ws × ModelSelector))
      → List (RedirectEntry ws negative)
      → List (RedirectEntry ws negative)
  with_entry (valid r) rest = entry_of r ∷ rest
  with_entry (invalid e) rest = rest

  -- The entries of the redirect rows among the rows, normalized, in their order.
  unfoldable pub entries : List (VirtualModel ws) → List (RedirectEntry ws negative)
  entries [] = []
  entries (row ∷ rows) =
      let rest = entries rows in
      if is_redirect ws row then with_entry (normalize_redirect ws negative row) rest else rest

  -- The last of the entries of a source, or the one before them.
  abbrev pub last_entry :
      Text
      → List (RedirectEntry ws negative)
      → Option (RedirectEntry ws negative)
      → Option (RedirectEntry ws negative)
  last_entry k [] before = before
  last_entry k (e ∷ es) before = last_entry k es (if text_eq e.vm.source k then some e else before)

  add_scoped-redirects :
      (scope : ScopeKind) (vm : VirtualModel ws) (s : ModelSnapshot ws negative)
      → (add_scoped ws negative scope vm s).redirects ≡ s.redirects
  add_scoped-redirects scope_global vm s = refl
  add_scoped-redirects scope_provider_model vm s = refl
  add_scoped-redirects scope_provider vm s = refl
  add_scoped-redirects scope_model vm s = refl

  add_policy-redirects :
      (vm : VirtualModel ws) (s : ModelSnapshot ws negative)
      → (add_policy ws negative vm s).redirects ≡ s.redirects
  unfolding add_policy
  add_policy-redirects vm s =
      add_scoped-redirects (scope_kind_for vm.source vm.provider_name vm.model) vm
        (record s { by_source = insert vm.source vm s.by_source })

  add_redirect-lookup :
      (k : Text) (r : VirtualModel ws × List (Target ws × ModelSelector))
      (s : ModelSnapshot ws negative)
      → lookup k (add_redirect ws negative r s).redirects
        ≡ (if text_eq r.0.source k then some (entry_of r) else lookup k s.redirects)
  unfolding add_redirect
  add_redirect-lookup k (vm, ts) s = lookup-insert vm.source k (entry_of (vm, ts)) s.redirects

  add_row-lookup :
      (k : Text) (row : VirtualModel ws) (rows : List (VirtualModel ws))
      (s next : ModelSnapshot ws negative)
      → add_row ws negative row s ≡ valid next
      → last_entry k (entries rows) (lookup k next.redirects)
        ≡ last_entry k (entries (row ∷ rows)) (lookup k s.redirects)
  unfolding add_row entries
  add_row-lookup k row rows s next h = elim (Bool-cases (is_redirect ws row)) [
    | inl y ↦
        let (r, (e, q)) =
          bind-valid (normalize_redirect ws negative row)
            (λ r. valid (add_redirect ws negative r s)) next (sym (rw y refl) ∙ h) in
        let same = valid-injective (add_redirect ws negative r s) next q in
        rw y (
          rw e (
            ap (last_entry k (entries rows)) (
              ap (λ (x : ModelSnapshot ws negative). lookup k x.redirects) (sym same)
              ∙ add_redirect-lookup k r s)))
    | inr n ↦
        let (vm, (e, q)) =
          bind-valid (normalize_stored_policy ws negative row)
            (λ vm. valid (add_policy ws negative vm s)) next (sym (rw n refl) ∙ h) in
        let same = valid-injective (add_policy ws negative vm s) next q in
        rw n (
          ap (last_entry k (entries rows)) (
            ap (λ (x : ModelSnapshot ws negative). lookup k x.redirects) (sym same)
            ∙ ap (lookup k) (add_policy-redirects vm s)))
  ]

  add_rows-lookup :
      (k : Text) (rows : List (VirtualModel ws)) (s next : ModelSnapshot ws negative)
      → add_rows ws negative rows s ≡ valid next
      → lookup k next.redirects ≡ last_entry k (entries rows) (lookup k s.redirects)
  unfolding add_rows entries
  add_rows-lookup k [] s next h =
      ap (λ (x : ModelSnapshot ws negative). lookup k x.redirects) (sym (valid-injective s next h))
  add_rows-lookup k (row ∷ rows) s next h =
      let (mid, (e, q)) =
        bind-valid (add_row ws negative row s) (λ n. add_rows ws negative rows n) next h in
      add_rows-lookup k rows mid next q ∙ add_row-lookup k row rows s mid e

  -- The built snapshot has for a source the entry of the last redirect row of this source.
  pub build_snapshot-lookup :
      (k : Text) (rows : List (VirtualModel ws)) (d : Bool) (s : ModelSnapshot ws negative)
      → build_snapshot ws negative rows d ≡ valid s
      → lookup k s.redirects ≡ last_entry k (entries rows) none
  unfolding build_snapshot empty_snapshot lookup
  build_snapshot-lookup k rows d s h =
      let (next, (e, q)) =
        bind-valid (add_rows ws negative rows (empty_snapshot ws negative d)) _ s h in
      let same = valid-injective _ s q in
      ap (λ (x : ModelSnapshot ws negative). lookup k x.redirects) (sym same)
      ∙ add_rows-lookup k rows (empty_snapshot ws negative d) next e
