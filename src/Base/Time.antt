-- ===== src/Base/Time.antt =====
-- Go's time.Time and time.Duration. A time is its nanoseconds since the zero Time (1 January of
-- year 1), so `is_zero` is `t.IsZero()`; a duration is an integer of nanoseconds.
use Prim.Native.Nat.{ℕ, suc, ◌+◌, ◌-◌}
use mathlib.Core.Path.{◌≡◌}
use mathlib.Core.Bool.{Bool, ◌&&◌, not}
use native.Mathlib.Omega.{arith}
use onionguard.Base.Tests.{ltb, leb, ◌==◌, if◌then◌else◌}
use onionguard.Base.Int.{ℤ, pos, negsuc, is_pos, int64_bound}

abbrev pub Time : Type 0
Time = ℕ

abbrev pub Duration : Type 0
Duration = ℤ

abbrev pub is_zero : Time → Bool
is_zero t = t == 0

-- `t.Before(u)`
abbrev pub before : Time → Time → Bool
before t u = ltb t u

-- `t.Add(d)`. A time before the zero Time is not represented: it becomes the zero Time.
abbrev pub add : Time → Duration → Time
add t (pos d) = t + d
add t (negsuc d) = t - suc d

-- `t.Sub(u)`, which saturates at the bounds of an int64.
abbrev pub sub : Time → Time → Duration
sub t u =
    if leb u t
    then (if ltb (t - u) int64_bound then pos (t - u) else pos (int64_bound - 1))
    else (if ltb (u - t - 1) int64_bound then negsuc (u - t - 1) else negsuc (int64_bound - 1))

-- `!e.IsZero() && !now.Before(e)`: a deadline that is set and has passed.
abbrev pub passed : Time → Time → Bool
passed now e = not (is_zero e) && not (before now e)

-- The difference is positive exactly when the first time is the later one.
pub is_pos-sub : (t u : Time) → is_pos (sub t u) ≡ ltb u t
is_pos-sub t u = ground arith

abbrev pub millisecond : ℕ
millisecond = 1000000

abbrev pub second : ℕ
second = 1000000000

abbrev pub minute : ℕ
minute = 60000000000
