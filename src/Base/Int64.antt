-- ===== src/Base/Int64.antt =====
-- Go's `int64` (and `int`, `time.Duration`) as a bit pattern below 2 ^ 64, in two's complement, and
-- the clock readings that the code takes from `time.Now`.
use Prim.Native.Nat.{ℕ, ◌+◌, ◌-◌, ◌*◌, ◌/◌, ◌%◌, ◌^◌, min}
use mathlib.Core.Bool.{Bool}
use go_netflow.Base.Tests.{ltb, leb, if◌then◌else◌}

abbrev pub Int64 : Type 0
Int64 = ℕ

-- The patterns from here on are the negative numbers.
abbrev pub half64 : ℕ
half64 = 2 ^ 63

abbrev pub mod64 : ℕ
mod64 = 2 ^ 64

abbrev pub add64 : Int64 → Int64 → Int64
add64 a b = (a + b) % mod64

abbrev pub neg64 : Int64 → Int64
neg64 a = (mod64 - a) % mod64

abbrev pub sub64 : Int64 → Int64 → Int64
sub64 a b = (a + mod64 - b) % mod64

abbrev pub mul64 : Int64 → Int64 → Int64
mul64 a b = (a * b) % mod64

abbrev pub is_neg64 : Int64 → Bool
is_neg64 a = ltb (half64 - 1) a

-- The signed order.
abbrev pub ltb64 : Int64 → Int64 → Bool
ltb64 a b = ltb ((a + half64) % mod64) ((b + half64) % mod64)

-- The absolute value, as a number.
abbrev pub abs64 : Int64 → ℕ
abs64 a = if is_neg64 a then mod64 - a else a

-- Go's `/`, which truncates towards zero.
unfoldable pub quot64 : Int64 → Int64 → Int64
quot64 a b =
    if is_neg64 a
    then (if is_neg64 b then (abs64 a / abs64 b) % mod64 else neg64 (abs64 a / b))
    else if is_neg64 b
    then neg64 (a / abs64 b)
    else a / b

-- A `time.Time` is the nanoseconds since the first of January of the year 1.
abbrev pub Time : Type 0
Time = ℕ

-- From the year 1 to 1970, in seconds.
abbrev pub epoch : ℕ
epoch = 62135596800

abbrev pub second : ℕ
second = 1000000000

-- `t.Unix()`
abbrev pub unix : Time → Int64
unix t = (t / second + mod64 - epoch) % mod64

-- `t.Add(d)`, for a moment after the year 1
abbrev pub add_time : Time → Int64 → Time
add_time t d = if is_neg64 d then t - (mod64 - d) else t + d

-- `t.Sub(u)`, which saturates at the ends of int64
abbrev pub sub_time : Time → Time → Int64
sub_time t u = if leb u t then min (t - u) (half64 - 1) else mod64 - min (u - t) half64
