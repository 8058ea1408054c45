-- ===== src/Failover/Sweep.antt =====
-- How a sweep of the failover targets ends, and what it records.
use thinroute.Prelude.{
  Bool, Bool-cases, List, [], ap, arith, false, inl, inr, map, refl, sym, true, ◌++◌, ◌+◌, ◌∙◌, ◌∷◌,
  ◌≡◌,
}
use thinroute.Attempts.{ProviderAttempt, AttemptRecorder, record_provider_attempt}
use thinroute.Errors.{is_nil, Err}
use thinroute.Failover.{
  Failovers, attempt_of, Outcome, try_failover_response, called, sweep, no_outcome, gate,
  first_non_empty_string, target_type, target_name, answer_of,
}
use thinroute.Selector.{ModelSelector, qualified_model}
use thinroute.Text.{Text, trim_space, codes}
use thinroute.Attempts.Added.{AddedOne, result_added, failover_kind}
use thinroute.Failover.Kinds.{should_attempt_failover}
use thinroute.Failover.Runs.{
  Sublist, Runs, recorded, world_after, last_error, outcomes, failures, response,
}
use thinroute.Failover.Targets.{
  log_after, Gate-cases, sweep-leave, sweep-skip, sweep-success, sweep-failure,
}
use mathlib.Core.List.{append-nil, append_assoc, map-append}

recorded_added :
    (log log' : AttemptRecorder) (ok : Bool) (model : Text)
    → AddedOne log log' ok model
    → recorded log' ≡ recorded log ++ (model, ok) ∷ []
recorded_added log log' ok model one =
    let row : ProviderAttempt → Text × Bool = λ a. (a.model, a.success) in
    ap (map row) one.added_eq
    ∙ (map-append row log.attempts (one.added ∷ []) ∙ rw (one.added_model, one.added_success) refl)

is_nil-nil : (err : Err) → is_nil err ≡ true → [] ≡ err
is_nil-nil [] h = refl
is_nil-nil (e ∷ err) h = absurd (ground arith)

module _ {ℓ κ} {W : Type ℓ} {Resp : Type κ} (o : Failovers W Resp) where
  pub attempt_added :
      (w : W) (s : ModelSelector) (log : AttemptRecorder)
      → AddedOne log
          (record_provider_attempt (attempt_of o w s) log)
          (is_nil (called o w s).err)
          (trim_space (qualified_model s))
  unfolding attempt_of
  attempt_added w s log =
      let c = called o w s in
      result_added o.err_text (codes "failover")
        (first_non_empty_string c.provider_type (target_type o s)) (target_name o s)
        (qualified_model s) c.err log failover_kind

  -- How a sweep of targets has ended, with the error before it: the targets that it has called, which
  -- calls have failed, and that the answer, the world, the records and the observer are as these calls
  -- in this order make them.
  pub record Ended (targets : List ModelSelector) (err : Err) (w : W) (log : AttemptRecorder)
      (r : Outcome Resp × (W × AttemptRecorder)) : Type (ℓ ⊔ κ) where
    pub tried : List ModelSelector
    pub in_order : Sublist tried targets
    pub runs : Runs o w tried r.0.used
    pub world_eq : r.1.0 ≡ world_after o w tried
    pub recorded_eq : recorded r.1.1 ≡ recorded log ++ outcomes o w tried
    pub observed_eq : r.1.1.observed ≡ log.observed + failures o w tried
    pub resp_eq : r.0.resp ≡ response o w tried
    pub err_eq : r.0.err ≡ last_error o w tried err
    pub err_iff : is_nil r.0.err ≡ r.0.used

  nothing-Sublist : {A : Type 0} (ys : List A) → Sublist [] ys
  nothing-Sublist [] = refl
  nothing-Sublist (y ∷ ys) = inl (nothing-Sublist ys)

  none_tried :
      (targets : List ModelSelector) (err : Err) (w : W) (log : AttemptRecorder)
      → is_nil err ≡ false
      → Ended targets err w log (no_outcome o err, (w, log))
  none_tried targets err w log h = record {
    tried = [];
    in_order = nothing-Sublist targets;
    runs = refl;
    world_eq = refl;
    recorded_eq = sym (append-nil (recorded log));
    observed_eq = omega arith;
    resp_eq = refl;
    err_eq = refl;
    err_iff = h;
  }

  skipped :
      (s : ModelSelector) (rest : List ModelSelector) (err : Err) (w : W) (log : AttemptRecorder)
      (r : Outcome Resp × (W × AttemptRecorder))
      → Ended rest err w log r
      → Ended (s ∷ rest) err w log r
  skipped s rest err w log r e = record {
    tried = e.tried;
    in_order = inl e.in_order;
    runs = e.runs;
    world_eq = e.world_eq;
    recorded_eq = e.recorded_eq;
    observed_eq = e.observed_eq;
    resp_eq = e.resp_eq;
    err_eq = e.err_eq;
    err_iff = e.err_iff;
  }

  answered :
      (s : ModelSelector) (rest : List ModelSelector) (err : Err) (w : W) (log : AttemptRecorder)
      → is_nil (called o w s).err ≡ true
      → Ended
          (s ∷ rest)
          err
          w
          log
          (answer_of o w s, ((called o w s).world, record_provider_attempt (attempt_of o w s) log))
  answered s rest err w log ok =
      let one = attempt_added w s log in
      record {
        tried = s ∷ [];
        in_order = inr ([], (refl, nothing-Sublist rest));
        runs = inl (ok, refl, refl);
        world_eq = refl;
        recorded_eq = recorded_added log _ _ _ one;
        observed_eq = one.told ∙ rw ok (omega arith);
        resp_eq = rw ok refl;
        err_eq = is_nil-nil (called o w s).err ok;
        err_iff = refl;
      }

  failed_first :
      (s : ModelSelector) (rest : List ModelSelector) (err : Err) (w : W) (log : AttemptRecorder)
      (r : Outcome Resp × (W × AttemptRecorder))
      → is_nil (called o w s).err ≡ false
      → Ended rest
          (called o w s).err
          (called o w s).world
          (record_provider_attempt (attempt_of o w s) log)
          r
      → Ended (s ∷ rest) err w log r
  failed_first s rest err w log r bad e =
      let one = attempt_added w s log in
      let w' = (called o w s).world in
      let told : (record_provider_attempt (attempt_of o w s) log).observed ≡ log.observed + 1 =
        one.told ∙ rw bad refl in
      let counted : failures o w (s ∷ e.tried) ≡ 1 + failures o w' e.tried = rw bad refl in
      record {
        tried = s ∷ e.tried;
        in_order = inr (e.tried, (refl, e.in_order));
        runs = inr (bad, e.runs);
        world_eq = e.world_eq;
        recorded_eq =
            e.recorded_eq
            ∙ (ap (λ xs. xs ++ outcomes o w' e.tried) (recorded_added log _ _ _ one)
                ∙ append_assoc (recorded log)
                    ((trim_space (qualified_model s), is_nil (called o w s).err) ∷ [])
                    (outcomes o w' e.tried));
        observed_eq = omega (arith, e.observed_eq, told, counted);
        resp_eq = rw bad e.resp_eq;
        err_eq = e.err_eq;
        err_iff = e.err_iff;
      }

  sweep-Ended :
      (targets : List ModelSelector) (w : W) (log : AttemptRecorder) (last : Err)
      → is_nil last ≡ false
      → Ended targets last w log (sweep o targets w log last)
  sweep-Ended [] w log last h = unfold sweep in none_tried [] last w log h
  sweep-Ended (s ∷ rest) w log last h =
      let c = called o w s in
      let log₁ = log_after o s rest w log last in
      elim (Gate-cases o (gate o w s)) [
        | inl e ↦ rw (sweep-leave o s rest w log last e) (none_tried (s ∷ rest) last w log h)
        | inr (inl e) ↦
            rw (sweep-skip o s rest w log last e)
              (skipped s rest last w log (sweep o rest w log last) (sweep-Ended rest w log last h))
        | inr (inr e) ↦ elim (Bool-cases (is_nil c.err)) [
          | inl ok ↦ rw (sweep-success o s rest w log last e ok) (answered s rest last w log ok)
          | inr bad ↦ rw (sweep-failure o s rest w log last e bad) (
              failed_first s rest last w log (sweep o rest c.world log₁ c.err) bad
                (sweep-Ended rest c.world log₁ c.err bad))
        ]
      ]

  -- A failover, after a primary error, calls some of the targets, in their order, until one of them
  -- answers, and calls no other. Exactly these calls are recorded after what was recorded before, in
  -- their order, each with its model and whether it has succeeded, and the observer is told once of
  -- each one that has failed. The answer is the response of the call that has succeeded, with no
  -- error, or, if none has, no response and the error of the last call, or the primary error without
  -- a call. Condition: the primary error is one.
  pub try_failover-Ended :
      (targets : List ModelSelector) (primary_err : Err) (w : W) (log : AttemptRecorder)
      (failed : is_nil primary_err ≡ false)
      → Ended targets primary_err w log (try_failover_response o targets primary_err w log)
  unfolding try_failover_response
  try_failover-Ended targets primary_err w log failed =
      let untried = none_tried targets primary_err w log failed in
      elim (Bool-cases (o.done w)) [
        | inl e ↦ rw e untried
        | inr e ↦ elim (Bool-cases (should_attempt_failover primary_err)) [
          | inl f ↦ rw e (rw f (sweep-Ended targets w log primary_err failed))
          | inr f ↦ rw e (rw f untried)
        ]
      ]
