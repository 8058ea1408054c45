-- ===== src/Cooldown/Whole.antt =====
-- Whole numbers in the place of float64, for the tests.
use thinroute.Cooldown.{Float}
use thinroute.Prelude.{ltb, ℕ, ◌*◌}

abbrev pub whole : Float
whole = record {
  F = ℕ;
  of_duration = λ d. d;
  to_duration = λ x. x;
  mul = λ a b. a * b;
  gt = λ a b. ltb b a;
  positive = λ a. ltb 0 a;
}
