-- ===== src/Failover/Admitted.antt =====
-- Which targets a sweep calls, while the request goes on and the gates do not change.
use thinroute.Prelude.{
  Bool, Bool-cases, List, [], ap, arith, false, if◌then◌else◌, inl, inr, map, refl, sym, true, ◌&&◌,
  ◌++◌, ◌∙◌, ◌∷◌, ◌≡◌,
}
use thinroute.Attempts.{AttemptRecorder, ProviderAttempt}
use thinroute.Errors.{Err, is_nil}
use thinroute.Failover.{Failovers, target_name, Outcome, gate, sweep, attempt, called, skip}
use thinroute.Selector.{qualified_model, ModelSelector}
use thinroute.Text.{Text, trim_space}
use thinroute.Attempts.Added.{AddedOne}
use thinroute.Failover.Runs.{Runs, world_after}
use thinroute.Failover.Sweep.{attempt_added}
use thinroute.Failover.Targets.{log_after, sweep-success, sweep-failure, sweep-skip}
use mathlib.Core.List.{append-nil, append_assoc, map-append}

abbrev pub names : List ModelSelector → List Text
names targets = map (λ s. trim_space (qualified_model s)) targets

abbrev pub models : AttemptRecorder → List Text
models log = map (λ (a : ProviderAttempt). a.model) log.attempts

models_added :
    (log log' : AttemptRecorder) (ok : Bool) (model : Text)
    → AddedOne log log' ok model
    → models log' ≡ models log ++ model ∷ []
models_added log log' ok model one =
    let model_of : ProviderAttempt → Text = λ a. a.model in
    ap (map model_of) one.added_eq
    ∙ (map-append model_of log.attempts (one.added ∷ [])
        ∙ ap (λ m. models log ++ m ∷ []) one.added_model)

module _ {ℓ κ} {W : Type ℓ} {Resp : Type κ} (o : Failovers W Resp) (allowed : ModelSelector → Bool)
    (free : Text → Text → Bool) where
  -- The targets that the gates let through.
  unfoldable pub open_targets : List ModelSelector → List ModelSelector
  open_targets [] = []
  open_targets (s ∷ rest) =
      let tail = open_targets rest in
      if allowed s && free (target_name o s) (qualified_model s) then s ∷ tail else tail

  -- A sweep of targets that are open, from the world w: all of them are called and each call fails,
  -- or those up to the first call that does not fail.
  pub data Swept (w : W) (log : AttemptRecorder) (targets : List ModelSelector)
      : Outcome Resp × (W × AttemptRecorder) → Type (ℓ ⊔ κ) where
    all_tried :
        {r : Outcome Resp × (W × AttemptRecorder)}
        → r.0.used ≡ false
        → Runs o w targets false
        → r.1.0 ≡ world_after o w targets
        → models r.1.1 ≡ models log ++ names targets
        → Swept w log targets r
    answered_by :
        {r : Outcome Resp × (W × AttemptRecorder)} (before : List ModelSelector) (s : ModelSelector)
        (after : List ModelSelector)
        → r.0.used ≡ true
        → targets ≡ before ++ s ∷ after
        → Runs o w (before ++ s ∷ []) true
        → r.1.0 ≡ world_after o w (before ++ s ∷ [])
        → r.0.failover_model ≡ qualified_model s
        → models r.1.1 ≡ models log ++ names (before ++ s ∷ [])
        → Swept w log targets r

  module _ (going : (w : W) → o.done w ≡ false)
      (allows_eq : (w : W) (s : ModelSelector) → o.allows w s ≡ allowed s)
      (available_eq : (w : W) (n m : Text) → o.available w n m ≡ free n m) where
    gate_open :
        (w : W) (s : ModelSelector)
        → gate o w s
          ≡ (if allowed s && free (target_name o s) (qualified_model s) then attempt else skip)
    unfolding gate
    gate_open w s = rw (going w) (
        rw (allows_eq w s)
          (rw (available_eq w (target_name o s) (qualified_model s)) (ground arith)))

    joined :
        (log log₁ : AttemptRecorder) (s : ModelSelector) (tried : List ModelSelector)
        (all : List Text)
        → models log₁ ≡ models log ++ trim_space (qualified_model s) ∷ []
        → all ≡ models log₁ ++ names tried
        → all ≡ models log ++ names (s ∷ tried)
    joined log log₁ s tried all one e =
        e
        ∙ (ap (λ xs. xs ++ names tried) one
            ∙ append_assoc (models log) (trim_space (qualified_model s) ∷ []) (names tried))

    prepend_tried :
        (w : W) (log log₁ : AttemptRecorder) (s : ModelSelector) (rest : List ModelSelector)
        (r : Outcome Resp × (W × AttemptRecorder))
        → is_nil (called o w s).err ≡ false
        → models log₁ ≡ models log ++ trim_space (qualified_model s) ∷ []
        → Swept (called o w s).world log₁ rest r
        → Swept w log (s ∷ rest) r
    prepend_tried w log log₁ s rest r bad one (all_tried used runs end tried) =
        all_tried used (inr (bad, runs)) end (joined log log₁ s rest (models r.1.1) one tried)
    prepend_tried w log log₁ s rest r bad one (answered_by before t after used e runs end m tried) =
        answered_by (s ∷ before) t after used (ap (λ xs. s ∷ xs) e) (inr (bad, runs)) end m
          (joined log log₁ s (before ++ t ∷ []) (models r.1.1) one tried)

    open-cons :
        (s : ModelSelector) (rest : List ModelSelector)
        → (allowed s && free (target_name o s) (qualified_model s)) ≡ true
        → open_targets (s ∷ rest) ≡ s ∷ open_targets rest
    unfolding open_targets
    open-cons s rest h = rw h refl

    shut-cons :
        (s : ModelSelector) (rest : List ModelSelector)
        → (allowed s && free (target_name o s) (qualified_model s)) ≡ false
        → open_targets (s ∷ rest) ≡ open_targets rest
    unfolding open_targets
    shut-cons s rest h = rw h refl

    -- While the request goes on, and the authorizer and the rate limits answer the same throughout,
    -- a sweep calls the targets that they let through, in their order, each in the world that the
    -- call before has left: all of them, and each of these calls fails, or those up to the first one
    -- whose call does not fail, which the outcome names. The models of these calls, and
    -- of no others, are recorded, in this order.
    pub sweep-Swept :
        (targets : List ModelSelector) (w : W) (log : AttemptRecorder) (last : Err)
        → Swept w log (open_targets targets) (sweep o targets w log last)
    sweep-Swept [] w log last =
        unfold open_targets sweep in all_tried refl refl refl (sym (append-nil (models log)))
    sweep-Swept (s ∷ rest) w log last =
        let is_open = allowed s && free (target_name o s) (qualified_model s) in
        let c = called o w s in
        let log₁ = log_after o s rest w log last in
        elim (Bool-cases is_open) [
          | inl e ↦
              let reached : gate o w s ≡ attempt = rw (gate_open w s) (rw e refl) in
              rw (open-cons s rest e) (elim (Bool-cases (is_nil c.err)) [
                | inl ok ↦ rw (sweep-success o s rest w log last reached ok) (
                    answered_by [] s (open_targets rest) refl refl (inl (ok, refl, refl)) refl refl
                      (models_added log log₁ (is_nil c.err) (trim_space (qualified_model s))
                        (attempt_added o w s log)))
                | inr bad ↦ rw (sweep-failure o s rest w log last reached bad) (
                    prepend_tried w log log₁ s (open_targets rest) (sweep o rest c.world log₁ c.err)
                      bad
                      (models_added log log₁ (is_nil c.err) (trim_space (qualified_model s))
                        (attempt_added o w s log))
                      (sweep-Swept rest c.world log₁ c.err))
              ])
          | inr e ↦ rw (shut-cons s rest e) (
              rw (sweep-skip o s rest w log last (gate_open w s ∙ rw e refl))
                (sweep-Swept rest w log last))
        ]
