-- ===== src/Failover/Targets.antt =====
-- The steps of the sweep at one target.
use thinroute.Prelude.{List, false, inl, inr, refl, true, ◌∷◌, ◌≡◌, ◌⊎◌}
use thinroute.Attempts.{AttemptRecorder, record_provider_attempt}
use thinroute.Errors.{Err, is_nil}
use thinroute.Failover.{
  Failovers, Gate, leave, skip, attempt, sweep, attempt_of, gate, no_outcome, called, answer_of,
}
use thinroute.Selector.{ModelSelector}

module _ {ℓ κ} {W : Type ℓ} {Resp : Type κ} (o : Failovers W Resp) where
  pub Gate-cases : (g : Gate o) → (g ≡ leave) ⊎ ((g ≡ skip) ⊎ (g ≡ attempt))
  Gate-cases leave = inl refl
  Gate-cases skip = inr (inl refl)
  Gate-cases attempt = inr (inr refl)

  module _ (s : ModelSelector) (rest : List ModelSelector) (w : W) (log : AttemptRecorder)
      (last : Err) where
    abbrev pub log_after : AttemptRecorder
    log_after = record_provider_attempt (attempt_of o w s) log

    pub sweep-leave :
        gate o w s ≡ leave → sweep o (s ∷ rest) w log last ≡ (no_outcome o last, (w, log))
    unfolding sweep
    sweep-leave e = rw (e, sweep) refl

    pub sweep-skip : gate o w s ≡ skip → sweep o (s ∷ rest) w log last ≡ sweep o rest w log last
    unfolding sweep
    sweep-skip e = rw (e, sweep) refl

    pub sweep-success :
        gate o w s ≡ attempt
        → is_nil (called o w s).err ≡ true
        → sweep o (s ∷ rest) w log last ≡ (answer_of o w s, ((called o w s).world, log_after))
    unfolding sweep
    sweep-success e ok = rw (e, ok, sweep) refl

    pub sweep-failure :
        gate o w s ≡ attempt
        → is_nil (called o w s).err ≡ false
        → sweep o (s ∷ rest) w log last
          ≡ sweep o rest (called o w s).world log_after (called o w s).err
    unfolding sweep
    sweep-failure e bad = rw (e, bad, sweep) refl
