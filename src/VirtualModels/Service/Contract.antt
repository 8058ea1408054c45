-- ===== src/VirtualModels/Service/Contract.antt =====
-- The contract of a store of internal/virtualmodels/store.go, what the restoring of rows by
-- internal/virtualmodels/service.go leaves in such a store, and what a write leaves.
use mathlib.Core.Option.{some-injective}
use thinroute.Prelude.{
  Bool, Bool-cases, List, Option, [], ap, arith, false, if◌then◌else◌, inl, inr, none, refl, some,
  subst, sym, true, ◌||◌, ◌∙◌, ◌∷◌, ◌≡◌,
}
use thinroute.Balancer.{Weights}
use thinroute.Map.{Map, lookup}
use thinroute.Text.{Text, text_eq}
use thinroute.VirtualModels.{VirtualModel, Checked, invalid, valid}
use thinroute.Text.Laws.{text_eq_iff}
use thinroute.VirtualModels.Service.{
  Deleted, StoreOps, Service, after_delete, restore_row, restore, refresh_locked, row_deleted,
  is_managed_source, Written, with_rows, committed, commit_refresh, row_missing, rejected,
  rolled_back, delete_failed, with_snapshot, saved, rollback_failed, not_found, store_failed,
  refresh_failed,
}
use thinroute.VirtualModels.Snapshot.{ModelSnapshot}

-- The rows of a store, by their sources.
module _ (ws : Weights) where
  abbrev pub set_row :
      Text
      → Option (VirtualModel ws)
      → (Text → Option (VirtualModel ws))
      → Text
      → Option (VirtualModel ws)
  set_row source row rows k = if text_eq source k then row else rows k

  -- What a delete leaves.
  abbrev pub LeftBy :
      Deleted
      → Text
      → (Text → Option (VirtualModel ws))
      → (Text → Option (VirtualModel ws))
      → Type 0
  LeftBy row_deleted source before after = (k : Text) → after k ≡ set_row source none before k
  LeftBy row_missing source before after =
      (before source ≡ none) × ((k : Text) → after k ≡ before k)
  LeftBy delete_failed source before after = (k : Text) → after k ≡ before k

  -- Setting the row of a source to what it was.
  pub set_row-back :
      (source : Text) (row : Option (VirtualModel ws))
      (rows before : Text → Option (VirtualModel ws)) (k : Text)
      → before source ≡ row
      → (text_eq source k ≡ false → rows k ≡ before k)
      → set_row source row rows k ≡ before k
  set_row-back source row rows before k h others = elim (Bool-cases (text_eq source k)) [
    | inl e ↦ rw e (subst (λ x. row ≡ before x) ((text_eq_iff source k).0 e) (sym h))
    | inr e ↦ rw e (others e)
  ]

  -- Restoring rows one after the other.
  unfoldable pub restored :
      Map (Option (VirtualModel ws))
      → (Text → Option (VirtualModel ws))
      → Text
      → Option (VirtualModel ws)
  restored [] rows k = rows k
  restored ((source, row) ∷ prior) rows k = restored prior (λ j. set_row source row rows j) k

  pub restored-same :
      (prior : Map (Option (VirtualModel ws))) (rows rows' : Text → Option (VirtualModel ws))
      → ((k : Text) → rows k ≡ rows' k)
      → (k : Text) → restored prior rows k ≡ restored prior rows' k
  unfolding restored
  restored-same [] rows rows' h k = h k
  restored-same ((source, row) ∷ prior) rows rows' h k =
      restored-same prior _ _ (λ j. ap (λ r. if text_eq source j then row else r) (h j)) k

  -- The rows to restore stand under their own sources.
  abbrev pub OwnSource : Text → Option (VirtualModel ws) → Type 0
  OwnSource source row = (vm : VirtualModel ws) → row ≡ some vm → vm.source ≡ source

  unfoldable pub OwnSources : Map (Option (VirtualModel ws)) → Type 0
  OwnSources [] = Unit {0}
  OwnSources ((source, row) ∷ prior) = OwnSource source row × OwnSources prior

module _ (ws : Weights) (negative : ws.F → Bool) {S : Type 0} where
  pub record StoreLaws (ops : StoreOps ws negative S) (find : Text → S → Option (VirtualModel ws))
      : Type 0 where
    pub put_done :
        (vm : VirtualModel ws) (st : S) (k : Text)
        → (ops.put vm st).0 ≡ false
        → find k (ops.put vm st).1 ≡ set_row ws vm.source (some vm) (λ j. find j st) k
    pub put_failed :
        (vm : VirtualModel ws) (st : S) (k : Text)
        → (ops.put vm st).0 ≡ true
        → find k (ops.put vm st).1 ≡ find k st
    pub deleted :
        (source : Text) (st : S)
        → LeftBy ws
            (ops.delete_row source st).0
            source
            (λ k. find k st)
            (λ k. find k (ops.delete_row source st).1)
    pub find_source :
        (k : Text) (vm : VirtualModel ws) (st : S) → find k st ≡ some vm → vm.source ≡ k

module _ (ws : Weights) (negative : ws.F → Bool) {S : Type 0} (ops : StoreOps ws negative S)
    (find : Text → S → Option (VirtualModel ws)) (laws : StoreLaws ws negative ops find) where
  -- The store has the same rows, and the snapshot is the same.
  abbrev pub Untouched : Service ws negative S → Service ws negative S → Type 0
  Untouched sv sv' = ((k : Text) → find k sv'.store ≡ find k sv.store) × (sv'.current ≡ sv.current)

  -- The store has the rows of the snapshot, but for those of the configuration.
  abbrev pub Synced : Service ws negative S → Type 0
  Synced sv =
      (k : Text)
      → is_managed_source ws negative sv.config_models k ≡ false
      → find k sv.store ≡ lookup k sv.current.by_source

  -- What a write leaves, by its answer; `Saved` is what it leaves when it is done.
  abbrev pub After :
      (Service ws negative S → Type 0)
      → Service ws negative S
      → Written
      → Service ws negative S
      → Type 0
  After Saved sv saved sv' = Saved sv'
  After Saved sv rollback_failed sv' = sv'.current ≡ sv.current
  After Saved sv not_found sv' = Untouched sv sv'
  After Saved sv store_failed sv' = Untouched sv sv'
  After Saved sv refresh_failed sv' = Untouched sv sv'
  After Saved sv (rejected r) sv' = Untouched sv sv'

  pub or-false : (b c : Bool) → (b || c) ≡ false → (b ≡ false) × (c ≡ false)
  or-false false c h = (refl, h)
  or-false true c h = absurd (ground arith)

  pub after_delete-set_row :
      (source : Text) (rows : Text → Option (VirtualModel ws)) (d : Deleted × S)
      → LeftBy ws d.0 source rows (λ j. find j d.1)
      → (after_delete ws negative ops d).0 ≡ false
      → (k : Text) → find k (after_delete ws negative ops d).1 ≡ set_row ws source none rows k
  after_delete-set_row source rows (row_deleted, st) law h k = law k
  after_delete-set_row source rows (row_missing, st) law h k =
      law.1 k ∙ sym (set_row-back ws source none rows rows k law.0 (λ e. refl))
  after_delete-set_row source rows (delete_failed, st) law h k = absurd (ground arith)

  pub restore_row-set_row :
      (source : Text) (row : Option (VirtualModel ws)) (st : S)
      → OwnSource ws source row
      → (restore_row ws negative ops source row st).0 ≡ false
      → (k : Text)
      → find k (restore_row ws negative ops source row st).1
        ≡ set_row ws source row (λ j. find j st) k
  unfolding restore_row
  restore_row-set_row source none st own h k =
      after_delete-set_row source (λ j. find j st) (ops.delete_row source st)
        (laws.deleted source st) h k
  restore_row-set_row source (some vm) st own h k =
      laws.put_done vm st k h ∙ ap (λ x. set_row ws x (some vm) (λ j. find j st) k) (own vm refl)

  pub restore-restored :
      (prior : Map (Option (VirtualModel ws))) (st : S)
      → OwnSources ws prior
      → (restore ws negative ops prior st).0 ≡ false
      → (k : Text)
      → find k (restore ws negative ops prior st).1 ≡ restored ws prior (λ j. find j st) k
  unfolding restore restored OwnSources
  restore-restored [] st own h k = refl
  restore-restored ((source, row) ∷ prior) st own h k =
      let done = or-false _ _ h in
      restore-restored prior (restore_row ws negative ops source row st).1 own.1 done.1 k
      ∙ restored-same ws prior _ _ (λ j. restore_row-set_row source row st own.0 done.0 j) k

  with_snapshot-store :
      (sv next : Service ws negative S) (c : Checked (ModelSnapshot ws negative))
      → with_snapshot ws negative ops sv c ≡ some next
      → next.store ≡ sv.store
  with_snapshot-store sv next (invalid e) h = absurd (ground arith)
  with_snapshot-store sv next (valid s) h =
      sym (ap (λ (x : Service ws negative S). x.store) (some-injective _ next h))

  with_rows-store :
      (sv next : Service ws negative S) (o : Option (List (VirtualModel ws)))
      → with_rows ws negative ops sv o ≡ some next
      → next.store ≡ sv.store
  with_rows-store sv next none h = absurd (ground arith)
  with_rows-store sv next (some stored) h = with_snapshot-store sv next _ h

  refresh_locked-store :
      (sv next : Service ws negative S)
      → refresh_locked ws negative ops sv ≡ some next
      → next.store ≡ sv.store
  unfolding refresh_locked
  refresh_locked-store sv next h = with_rows-store sv next (ops.list sv.store) h

  module _ (Saved : Service ws negative S → Type 0) (sv : Service ws negative S)
      (prior : Map (Option (VirtualModel ws))) (st : S)
      (undone : (restore ws negative ops prior st).0 ≡ false
        → (k : Text) → find k (restore ws negative ops prior st).1 ≡ find k sv.store) where
    committed-After :
        (o : Option (Service ws negative S))
        → ((next : Service ws negative S) → o ≡ some next → Saved next)
        → After Saved sv
            (committed ws negative ops prior (record sv { store = st }) o).0
            (committed ws negative ops prior (record sv { store = st }) o).1
    committed-After (some next) done = done next refl
    committed-After none done = rolled_back-After (restore ws negative ops prior st) undone
      where
        rolled_back-After :
            (r : Bool × S)
            → (r.0 ≡ false → (k : Text) → find k r.1 ≡ find k sv.store)
            → After Saved sv
                (rolled_back ws negative ops (record sv { store = st }) r).0
                (rolled_back ws negative ops (record sv { store = st }) r).1
        rolled_back-After (true, st') h = refl
        rolled_back-After (false, st') h = (h refl, refl)

    -- The commit of a write that has left the store st.
    pub commit_refresh-After :
        ((next : Service ws negative S) → next.store ≡ st → Saved next)
        → After Saved sv
            (commit_refresh ws negative ops prior (record sv { store = st })).0
            (commit_refresh ws negative ops prior (record sv { store = st })).1
    unfolding commit_refresh
    commit_refresh-After done =
        committed-After (refresh_locked ws negative ops (record sv { store = st }))
          (λ next h. done next (refresh_locked-store (record sv { store = st }) next h))
