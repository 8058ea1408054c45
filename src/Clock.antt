-- ===== src/Clock.antt =====
-- time.Time and time.Duration of Go. A time is its distance in nanoseconds from the zero time
-- (year 1), so `0` is the time for which IsZero holds. A duration is a count of nanoseconds that
-- is not negative; a setting that the source tests by `<= 0` is `0` where it is off. Two
-- readings of the clock are compared by their monotonic part, so they never run backwards.
use thinroute.Prelude.{ℕ, ◌-◌, ◌^◌, min, Bool, ◌==◌, ltb}

abbrev pub Time : Type 0
Time = ℕ

abbrev pub Duration : Type 0
Duration = ℕ

abbrev pub max_duration : Duration
max_duration = 2 ^ 63 - 1

-- now.Sub(t), which stops at the largest duration.
abbrev pub sub_time : Time → Time → Duration
sub_time now t = min (now - t) max_duration

abbrev pub is_zero : Time → Bool
is_zero t = t == 0

-- t.Before(u)
abbrev pub before : Time → Time → Bool
before t u = ltb t u

-- t.After(u)
abbrev pub after : Time → Time → Bool
after t u = ltb u t

abbrev pub second : Duration
second = 1_000_000_000
