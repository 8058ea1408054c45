-- ===== src/Failover/Runs.antt =====
-- What calling failover targets one after the other gives, told without the sweep: which calls fail,
-- the state of the world after them, and what is to be recorded of them.
use thinroute.Prelude.{
  Bool, List, Option, [], false, if◌then◌else◌, map, none, some, true, ℕ, ◌+◌, ◌∷◌, ◌≡◌, ◌⊎◌,
}
use thinroute.Attempts.{AttemptRecorder, ProviderAttempt}
use thinroute.Errors.{Err, is_nil}
use thinroute.Failover.{Failovers, called}
use thinroute.Selector.{ModelSelector, qualified_model}
use thinroute.Text.{Text, trim_space}

-- The first list is made of items of the second one, in their order.
abbrev pub Sublist {ℓ} : {A : Type ℓ} → List A → List A → Type ℓ
Sublist xs [] = xs ≡ []
Sublist {A = A} xs (y ∷ ys) = Sublist xs ys ⊎ (zs : List A) × ((xs ≡ y ∷ zs) × Sublist zs ys)

-- The model and the success of each attempt that a recorder has.
abbrev pub recorded : AttemptRecorder → List (Text × Bool)
recorded log = map (λ (a : ProviderAttempt). (a.model, a.success)) log.attempts

module _ {ℓ κ} {W : Type ℓ} {Resp : Type κ} (o : Failovers W Resp) where
  -- Calling the targets one after the other from the world w: each call fails, but for the last one
  -- where `used`.
  abbrev pub Runs : W → List ModelSelector → Bool → Type 0
  Runs w [] used = used ≡ false
  Runs w (s ∷ rest) used =
      (is_nil (called o w s).err ≡ true) × (rest ≡ []) × (used ≡ true)
      ⊎ (is_nil (called o w s).err ≡ false) × Runs (called o w s).world rest used

  -- The world after the calls of the targets.
  abbrev pub world_after : W → List ModelSelector → W
  world_after w [] = w
  world_after w (s ∷ rest) = world_after (called o w s).world rest

  -- The error of the last call, or the one before the calls.
  abbrev pub last_error : W → List ModelSelector → Err → Err
  last_error w [] err = err
  last_error w (s ∷ rest) err = last_error (called o w s).world rest (called o w s).err

  -- The model and the success of each call.
  abbrev pub outcomes : W → List ModelSelector → List (Text × Bool)
  outcomes w [] = []
  outcomes w (s ∷ rest) =
      (trim_space (qualified_model s), is_nil (called o w s).err)
      ∷ outcomes (called o w s).world rest

  -- How many of the calls fail.
  abbrev pub failures : W → List ModelSelector → ℕ
  failures w [] = 0
  failures w (s ∷ rest) =
      (if is_nil (called o w s).err then 0 else 1) + failures (called o w s).world rest

  -- The response of the first call that does not fail.
  abbrev pub response : W → List ModelSelector → Option Resp
  response w [] = none
  response w (s ∷ rest) =
      let later = response (called o w s).world rest in
      if is_nil (called o w s).err then some (called o w s).resp else later
