-- ===== src/Attempts/Added.antt =====
-- What one call of a provider adds to the recorder.
use thinroute.Prelude.{
  Bool, Bool-cases, Option-cases, [], ap, false, if◌then◌else◌, inl, inr, length, refl, subst, ◌++◌,
  ◌+◌, ◌==◌, ◌∙◌, ◌∷◌, ◌≡◌,
}
use thinroute.Attempts.{
  AttemptRecorder, record_provider_attempt, normalize_provider_attempt_kind, ProviderAttempt,
  provider_attempt_from_result,
}
use thinroute.Errors.{Err, is_nil, as_gateway}
use thinroute.Text.{Text, to_lower, is_empty, trim_space, text_eq, codes}

-- The attempt that a recorder has more, and whether the observer has been told of it.
pub record AddedOne (log log' : AttemptRecorder) (ok : Bool) (model : Text) : Type 0 where
  pub added : ProviderAttempt
  pub added_success : added.success ≡ ok
  pub added_model : added.model ≡ model
  pub added_eq : log'.attempts ≡ log.attempts ++ added ∷ []
  pub told : log'.observed ≡ (if ok then log.observed else log.observed + 1)

record_added :
    (a : ProviderAttempt) (log : AttemptRecorder)
    → is_empty (normalize_provider_attempt_kind a.kind) ≡ false
    → AddedOne log (record_provider_attempt a log) a.success (trim_space a.model)
unfolding record_provider_attempt
record_added a log h = rw h (record {
  added = record a {
    seq = if a.seq == 0 then length log.attempts + 1 else a.seq;
    kind = normalize_provider_attempt_kind a.kind;
    provider_type = trim_space a.provider_type;
    provider_name = trim_space a.provider_name;
    model = trim_space a.model;
    error_type = trim_space a.error_type;
    error_code = trim_space a.error_code;
    error_message = trim_space a.error_message;
  };
  added_success = refl;
  added_model = refl;
  added_eq = refl;
  told = refl;
})

module _ (err_text : Err → Text) (kind type name model : Text) (err : Err) where
  abbrev made : ProviderAttempt
  made = provider_attempt_from_result err_text kind type name model err

  kept : (made.kind ≡ kind) × ((made.success ≡ is_nil err) × (made.model ≡ model))
  unfolding provider_attempt_from_result
  kept = elim (Bool-cases (is_nil err)) [
    | inl ok ↦ rw ok (refl, (refl, refl))
    | inr bad ↦ elim (Option-cases (as_gateway err)) [
      | inl e ↦ rw bad (rw e (refl, (refl, refl)))
      | inr (g, e) ↦ rw bad (rw e (refl, (refl, refl)))
    ]
  ]

  pub result_added :
      (log : AttemptRecorder)
      → is_empty (normalize_provider_attempt_kind kind) ≡ false
      → AddedOne log (record_provider_attempt made log) (is_nil err) (trim_space model)
  result_added log h =
      subst (λ b. AddedOne log (record_provider_attempt made log) b (trim_space model)) kept.1.0
        (subst (λ m. AddedOne log (record_provider_attempt made log) made.success (trim_space m))
          kept.1.1
          (record_added made log
            (ap (λ k. is_empty (normalize_provider_attempt_kind k)) kept.0 ∙ h)))

pub failover_kind : is_empty (normalize_provider_attempt_kind (codes "failover")) ≡ false
unfolding normalize_provider_attempt_kind to_lower trim_space text_eq
failover_kind = refl
