-- ===== src/VirtualModels/Service/Tests.antt =====
-- A write to a service whose store is a map from sources to rows, which refuses no operation.
use thinroute.Prelude.{
  Bool, Bool-cases, Option, [], ap, arith, false, if◌then◌else◌, inl, inr, map, none, refl, some,
  subst, sym, true, ℕ, ◌==◌, ◌∙◌, ◌∷◌, ◌≡◌,
}
use thinroute.Balancer.{Weights}
use thinroute.Map.{Map, lookup, insert, remove}
use thinroute.ModelSelectors.{provider_name_set}
use thinroute.Selector.{parse_model_selector, split_qualified_model, qualified_model}
use thinroute.Text.{
  Text, text_eq, codes, to_lower, to_lower_rune, trim_space, trim_left, is_space, text_lt, cut,
}
use thinroute.VirtualModels.{VirtualModel, normalize_strategy, valid_strategy}
use thinroute.Map.Laws.{lookup-insert, lookup-remove}
use thinroute.Text.Laws.{text_eq_iff}
use thinroute.Text.Order.{sort_texts}
use thinroute.VirtualModels.Paths.{normalize_user_paths, distinct_paths}
use thinroute.VirtualModels.Redirect.{normalize_redirect, redirect_targets}
use thinroute.VirtualModels.Service.{
  restore_row, restore, upsert_row, rows_at, rows, prune, unmanaged, merge_config_models, StoreOps,
  Catalog, Service, Deleted, saved, row_missing, row_deleted, commit_refresh, refresh_locked,
  is_managed_source,
}
use thinroute.VirtualModels.Snapshot.{empty_snapshot, build_snapshot, add_rows, add_row}
use thinroute.VirtualModels.Service.Contract.{StoreLaws, LeftBy, set_row, After}
use thinroute.VirtualModels.Service.Atomic.{Done}
use thinroute.VirtualModels.Service.Writes.{write, renaming, rename, check_rename}
use thinroute.VirtualModels.Service.{remove_row}
use thinroute.VirtualModels.Service.Whole.{write-After}
use thinroute.VirtualModels.Service.Check.{
  first_unsupported_target, validate_target_providers, validate_structure, validate_redirect_target,
  ensure_source_kind, upsert, normalize_for_upsert, check_upsert,
}
use mathlib.Core.Option.{some-injective}

abbrev whole : Weights
whole = record { F = ℕ; not_positive = λ w. w == 0; rounded = λ w. w }

abbrev never : ℕ → Bool
never w = false

abbrev Rows : Type 0
Rows = Map (VirtualModel whole)

abbrev delete_at : Text → Rows → Option (VirtualModel whole) → Deleted × Rows
delete_at source m none = (row_missing, m)
delete_at source m (some vm) = (row_deleted, remove source m)

abbrev keeps : StoreOps whole never Rows
keeps = record {
  list = λ m. some (map (λ e. e.1) m);
  put = λ vm m. (false, insert vm.source vm m);
  delete_row = λ source m. delete_at source m (lookup source m);
}

abbrev own_row : Text → Option (VirtualModel whole) → Option (VirtualModel whole)
own_row k none = none
own_row k (some vm) = if text_eq vm.source k then some vm else none

abbrev row_of : Text → Rows → Option (VirtualModel whole)
row_of k m = own_row k (lookup k m)

put_law :
    (vm : VirtualModel whole) (m : Rows) (k : Text)
    → row_of k (insert vm.source vm m) ≡ set_row whole vm.source (some vm) (λ j. row_of j m) k
put_law vm m k = elim (Bool-cases (text_eq vm.source k)) [
  | inl e ↦
      let there : lookup k (insert vm.source vm m) ≡ some vm =
        lookup-insert vm.source k vm m ∙ rw e refl in
      rw (there, e) refl
  | inr e ↦
      let kept : lookup k (insert vm.source vm m) ≡ lookup k m =
        lookup-insert vm.source k vm m ∙ rw e refl in
      rw (kept, e) refl
]

delete_law :
    (source : Text) (m : Rows) (found : Option (VirtualModel whole))
    → lookup source m ≡ found
    → LeftBy whole
        (delete_at source m found).0
        source
        (λ k. row_of k m)
        (λ k. row_of k (delete_at source m found).1)
delete_law source m none h = (ap (own_row source) h, λ k. refl)
delete_law source m (some vm) h = λ k. elim (Bool-cases (text_eq source k)) [
  | inl e ↦
      let gone : lookup k (remove source m) ≡ none = lookup-remove source k m ∙ rw e refl in
      rw (gone, e) refl
  | inr e ↦
      let kept : lookup k (remove source m) ≡ lookup k m = lookup-remove source k m ∙ rw e refl in
      rw (kept, e) refl
]

own_row-source :
    (k : Text) (vm : VirtualModel whole) (o : Option (VirtualModel whole))
    → own_row k o ≡ some vm
    → vm.source ≡ k
own_row-source k vm none h = absurd (ground arith)
own_row-source k vm (some row) h = elim (Bool-cases (text_eq row.source k)) [
  | inl e ↦
      let same : row ≡ vm = some-injective row vm (sym (rw e refl) ∙ h) in
      subst (λ x. x.source ≡ k) same ((text_eq_iff row.source k).0 e)
  | inr e ↦ absurd (ground arith)
]

true-false : true ≡ false → ⊥
true-false h = ground arith

abbrev laws : StoreLaws whole never keeps row_of
laws = record {
  put_done = λ vm m k h. put_law vm m k;
  put_failed = λ vm m k h. absurd (true-false (sym h));
  deleted = λ source m. delete_law source m (lookup source m) refl;
  find_source = λ k vm m h. own_row-source k vm (lookup k m) h;
}

abbrev catalog : Catalog whole never
catalog = record { provider_names = codes "groq" ∷ []; supports = λ m. true }

abbrev service : Service whole never Rows
service = record {
  store = [];
  current = empty_snapshot whole never true;
  config_models = [];
  default_enabled = true;
  counters = [];
}

abbrev smart : VirtualModel whole
smart = record {
  source = codes " smart";
  targets =
      record { provider = codes "groq"; model = codes "llama"; weight = 1; fallback_only = false }
      ∷ [];
  strategy = [];
  provider_name = [];
  model = [];
  user_paths = [];
  description = [];
  enabled = true;
  managed = false;
}

program : Unit {0}
unfolding lookup insert remove empty_snapshot upsert normalize_for_upsert check_upsert
    commit_refresh refresh_locked normalize_redirect redirect_targets normalize_strategy
    valid_strategy to_lower to_lower_rune trim_space trim_left is_space text_eq text_lt
    parse_model_selector split_qualified_model cut qualified_model normalize_user_paths
    distinct_paths sort_texts is_managed_source ensure_source_kind validate_redirect_target
    validate_structure validate_target_providers first_unsupported_target provider_name_set
    build_snapshot add_rows add_row merge_config_models unmanaged prune rows rows_at upsert_row
    restore restore_row write rename check_rename remove_row
program = tt

saved_once : (upsert whole never keeps catalog smart service).0 ≡ saved
unfolding program
saved_once = refl

abbrev fast : VirtualModel whole
fast = record smart { source = codes "fast" }

abbrev holding : Service whole never Rows
holding = record service {
  store = (codes "fast", fast) ∷ [];
  current = record (empty_snapshot whole never true) { by_source = (codes "fast", fast) ∷ [] };
}

holding-Synced :
    (k : Text) → row_of k ((codes "fast", fast) ∷ []) ≡ lookup k ((codes "fast", fast) ∷ [])
unfolding lookup
holding-Synced k = elim (Bool-cases (text_eq (codes "fast") k)) [
  | inl e ↦ rw e (rw e refl)
  | inr e ↦ rw e refl
]

moved_once :
    ((write whole never keeps catalog (renaming true (codes "fast") smart) holding).0 ≡ saved)
    × (map
          (λ e. e.0)
          (write whole never keeps catalog (renaming true (codes "fast") smart) holding).1.store
        ≡ codes "smart" ∷ [])
unfolding program
moved_once = (refl, refl)

write-After_example :
    After whole never keeps row_of laws
      (Done whole never keeps catalog row_of laws (renaming true (codes "fast") smart) holding)
      holding
      (write whole never keeps catalog (renaming true (codes "fast") smart) holding).0
      (write whole never keeps catalog (renaming true (codes "fast") smart) holding).1
write-After_example =
    write-After whole never keeps catalog row_of laws holding (λ k h. holding-Synced k)
      (renaming true (codes "fast") smart)
