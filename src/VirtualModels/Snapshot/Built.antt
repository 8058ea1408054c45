-- ===== src/VirtualModels/Snapshot/Built.antt =====
-- The invariant of the snapshots that buildSnapshot of internal/virtualmodels/snapshot.go builds.
use thinroute.Prelude.{
  All, Bool, Bool-cases, List, [], arith, inl, inr, is_some, map, none, refl, subst, sym, ◌++◌,
  ◌||◌, ◌∙◌, ◌∷◌, ◌≡◌,
}
use thinroute.Balancer.{Weights}
use thinroute.Map.{insert, lookup}
use thinroute.ModelSelectors.{
  ScopeKind, scope_kind_for, scope_global, scope_provider_model, scope_provider, scope_model,
}
use thinroute.Selector.{ModelSelector}
use thinroute.Text.{Text}
use thinroute.VirtualModels.{Target, VirtualModel, valid, is_redirect}
use thinroute.Map.Laws.{Unique, insert-All, insert-Unique, lookup-insert}
use thinroute.Text.Order.{mem, Ordered, sort_texts, sort_texts-mem, sort_texts-Ordered}
use thinroute.VirtualModels.Redirect.{normalize_redirect, normalize_stored_policy}
use thinroute.VirtualModels.Snapshot.{
  RedirectEntry, ModelSnapshot, add_redirect, add_policy, add_row, add_rows, empty_snapshot,
  build_snapshot, add_scoped, resolved_target,
}
use thinroute.VirtualModels.Snapshot.Entries.{build_snapshot-lookup, entries, last_entry}
use thinroute.VirtualModels.Paths.Allowed.{valid-injective, bind-valid}
use thinroute.VirtualModels.Redirect.Distinct.{IsRedirect, normalize_redirect-IsRedirect}

mem-append : (k : Text) (xs ys : List Text) → mem k (xs ++ ys) ≡ (mem k xs || mem k ys)
mem-append k [] ys = refl
mem-append k (x ∷ xs) ys = ground (arith, mem-append k xs ys)

module _ (ws : Weights) (negative : ws.F → Bool) where
  -- An entry for what normalizeRedirect has made of a row, with the targets and the strategy that it
  -- has.
  pub data IsEntry (e : RedirectEntry ws negative) : Type 0 where
    from_row :
        (row : VirtualModel ws) (ts : List (Target ws × ModelSelector))
        → normalize_redirect ws negative row ≡ valid (e.vm, ts)
        → IsRedirect ws negative (e.vm, ts)
        → e.targets ≡ map (resolved_target ws negative) ts
        → e.strategy ≡ e.vm.strategy
        → IsEntry e

  abbrev pub Keyed : Text × RedirectEntry ws negative → Type 0
  Keyed (k, e) = (k ≡ e.vm.source) × IsEntry e

  pub record IsBuilt (s : ModelSnapshot ws negative) : Type 0 where
    pub keyed : All Keyed s.redirects
    pub unique : Unique s.redirects
    pub listed : (k : Text) → is_some (lookup k s.redirects) ≡ mem k s.order

  add_redirect-IsBuilt :
      (row : VirtualModel ws) (r : VirtualModel ws × List (Target ws × ModelSelector))
      (s : ModelSnapshot ws negative)
      → normalize_redirect ws negative row ≡ valid r
      → IsBuilt s
      → IsBuilt (add_redirect ws negative r s)
  unfolding add_redirect
  add_redirect-IsBuilt row (vm, ts) s h b =
      let entry : RedirectEntry ws negative = record {
        vm = vm;
        targets = map (resolved_target ws negative) ts;
        strategy = vm.strategy;
      } in
      record {
        keyed =
            insert-All Keyed vm.source entry s.redirects
              (
                refl,
                from_row row ts h (normalize_redirect-IsRedirect ws negative row (vm, ts) h) refl
                    refl,
              )
              b.keyed;
        unique = insert-Unique vm.source entry s.redirects b.unique;
        listed = λ k. ground (
          arith,
          lookup-insert vm.source k entry s.redirects,
          b.listed k,
          mem-append k s.order (vm.source ∷ []),
        );
      }

  add_scoped-IsBuilt :
      (scope : ScopeKind) (vm : VirtualModel ws) (s : ModelSnapshot ws negative)
      → IsBuilt s
      → IsBuilt (add_scoped ws negative scope vm s)
  add_scoped-IsBuilt scope_global vm s b = record {
    keyed = b.keyed;
    unique = b.unique;
    listed = b.listed;
  }
  add_scoped-IsBuilt scope_provider_model vm s b = record {
    keyed = b.keyed;
    unique = b.unique;
    listed = b.listed;
  }
  add_scoped-IsBuilt scope_provider vm s b = record {
    keyed = b.keyed;
    unique = b.unique;
    listed = b.listed;
  }
  add_scoped-IsBuilt scope_model vm s b = record {
    keyed = b.keyed;
    unique = b.unique;
    listed = b.listed;
  }

  add_policy-IsBuilt :
      (vm : VirtualModel ws) (s : ModelSnapshot ws negative)
      → IsBuilt s
      → IsBuilt (add_policy ws negative vm s)
  unfolding add_policy
  add_policy-IsBuilt vm s b =
      add_scoped-IsBuilt (scope_kind_for vm.source vm.provider_name vm.model) vm
        (record s { by_source = insert vm.source vm s.by_source })
        (record { keyed = b.keyed; unique = b.unique; listed = b.listed })

  add_row-IsBuilt :
      (row : VirtualModel ws) (s next : ModelSnapshot ws negative)
      → add_row ws negative row s ≡ valid next
      → IsBuilt s
      → IsBuilt next
  unfolding add_row
  add_row-IsBuilt row s next h b = elim (Bool-cases (is_redirect ws row)) [
    | inl y ↦
        let (r, (e, q)) =
          bind-valid (normalize_redirect ws negative row)
            (λ r. valid (add_redirect ws negative r s)) next (sym (rw y refl) ∙ h) in
        subst IsBuilt (valid-injective (add_redirect ws negative r s) next q)
          (add_redirect-IsBuilt row r s e b)
    | inr n ↦
        let (vm, (e, q)) =
          bind-valid (normalize_stored_policy ws negative row)
            (λ vm. valid (add_policy ws negative vm s)) next (sym (rw n refl) ∙ h) in
        subst IsBuilt (valid-injective (add_policy ws negative vm s) next q)
          (add_policy-IsBuilt vm s b)
  ]

  add_rows-IsBuilt :
      (rows : List (VirtualModel ws)) (s next : ModelSnapshot ws negative)
      → add_rows ws negative rows s ≡ valid next
      → IsBuilt s
      → IsBuilt next
  unfolding add_rows
  add_rows-IsBuilt [] s next h b = subst IsBuilt (valid-injective s next h) b
  add_rows-IsBuilt (row ∷ rows) s next h b =
      let (mid, (e, q)) =
        bind-valid (add_row ws negative row s) (λ n. add_rows ws negative rows n) next h in
      add_rows-IsBuilt rows mid next q (add_row-IsBuilt row s mid e b)

  empty-IsBuilt : (d : Bool) → IsBuilt (empty_snapshot ws negative d)
  unfolding empty_snapshot lookup
  empty-IsBuilt d = record { keyed = tt; unique = tt; listed = λ k. refl }

  -- In a snapshot that buildSnapshot builds of rows, each redirect entry stands under its row's source
  -- and has the targets, with the selectors parsed from them, and the strategy of a row as
  -- normalizeRedirect has made it; no source has two entries; the sorted order lists exactly the
  -- sources of the entries; and the entry of a source is the one of the last redirect row that is
  -- normalized to this source, if there is such a row.
  pub build_snapshot-IsBuilt :
      (rows : List (VirtualModel ws)) (default_enable : Bool) (s : ModelSnapshot ws negative)
      → build_snapshot ws negative rows default_enable ≡ valid s
      → IsBuilt s
        × Ordered s.order
        × ((k : Text)
            → lookup k s.redirects ≡ last_entry ws negative k (entries ws negative rows) none)
  unfolding build_snapshot
  build_snapshot-IsBuilt rows d s h =
      let (next, (e, q)) =
        bind-valid (add_rows ws negative rows (empty_snapshot ws negative d))
          (λ n. valid (record n { order = sort_texts n.order })) s h in
      let b = add_rows-IsBuilt rows (empty_snapshot ws negative d) next e (empty-IsBuilt d) in
      let (is_built, ordered) : IsBuilt s × Ordered s.order =
        subst (λ x. IsBuilt x × Ordered x.order) (valid-injective _ s q)
          (
            record {
              keyed = b.keyed;
              unique = b.unique;
              listed = λ k. b.listed k ∙ sym (sort_texts-mem k next.order);
            },
            sort_texts-Ordered next.order,
          ) in
      (is_built, ordered, λ k. build_snapshot-lookup ws negative k rows d s h)
