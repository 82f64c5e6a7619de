-- ===== src/Prelude/Clock.antt =====
-- Go's `time.Time` as the hub uses it: the zero value, or an instant in unix nanoseconds.
use mathlib.Core.Bool.{Bool, true, false}
use tracelab.Prelude.Int.{ℤ, negsuc}

-- `zero` is `time.Time{}`; `unix n` is `time.Unix(0, n)`, which is never the zero value, since
-- year 1 is out of the range of 64-bit nanoseconds.
pub data Time : Type 0 where
  zero_time : Time
  unix : ℤ → Time

-- `t.IsZero()`
abbrev pub is_zero : Time → Bool
is_zero zero_time = true
is_zero (unix n) = false

-- What `time.Time{}.UnixNano()` computes: -62135596800 s in nanoseconds, wrapped to 64 bits.
abbrev pub zero_nano : ℤ
zero_nano = negsuc 6795364578871345151

-- `t.UnixNano()`
abbrev pub unix_nano : Time → ℤ
unix_nano zero_time = zero_nano
unix_nano (unix n) = n
