-- ===== src/Base/Strconv.antt =====
-- What the source uses of Go's `strconv`: `ParseInt`, `Atoi` and `FormatInt` (and `%d` of `fmt`).
use Prim.Native.Nat.{ℕ, zero, suc, ◌+◌, ◌-◌, ◌*◌, ◌/◌, ◌%◌, ◌^◌, ◌<◌}
use mathlib.Core.Path.{◌≡◌, refl, ap, ◌∙◌}
use mathlib.Core.Bool.{Bool, true, false, ◌&&◌}
use mathlib.Core.Option.{Option, none, some}
use mathlib.Core.List.{[], ◌∷◌}
use native.Mathlib.Omega.{arith}
use go_netflow.Base.Tests.{ltb, leb, ◌==◌, if◌then◌else◌}
use go_netflow.Base.Bytes.{Bytes, codes}
use go_netflow.Base.Int64.{Int64, mod64, is_neg64}

-- The value of a digit or a letter.
unfoldable pub digit : ℕ → Option ℕ
digit c =
    if leb b'0' c && leb c b'9'
    then some (c - b'0')
    else if leb b'a' c && leb c b'z'
    then some (c - b'a' + 10)
    else if leb b'A' c && leb c b'Z'
    then some (c - b'A' + 10)
    else none

-- What `ParseUint` finds: a value, a character that is no digit, or a value of too many bits.
pub data Scanned : Type 0 where
  value : ℕ → Scanned
  syntax_error range_error : Scanned

-- The digits of a number behind those that give `n`.
unfoldable pub scan : ℕ → ℕ → ℕ → Bytes → Scanned
scan base bits n [] = value n
scan base bits n (c ∷ s) = elim (digit c) [
  | none ↦ syntax_error
  | some d ↦
      if leb base d
      then syntax_error
      else if leb (2 ^ bits) (n * base + d)
      then range_error
      else scan base bits (n * base + d) s
]

-- `ParseUint`
unfoldable pub parse_uint : ℕ → ℕ → Bytes → Scanned
parse_uint base bits [] = syntax_error
parse_uint base bits (c ∷ s) = scan base bits 0 (c ∷ s)

-- The result of `ParseInt`: the value, and whether there is no error.
abbrev pub signed : ℕ → Bool → Scanned → Int64 × Bool
signed bits is_neg syntax_error = (0, false)
signed bits true range_error = (mod64 - 2 ^ (bits - 1), false)
signed bits false range_error = (2 ^ (bits - 1) - 1, false)
signed bits true (value n) =
    if ltb (2 ^ (bits - 1)) n then (mod64 - 2 ^ (bits - 1), false) else ((mod64 - n) % mod64, true)
signed bits false (value n) =
    if leb (2 ^ (bits - 1)) n then (2 ^ (bits - 1) - 1, false) else (n, true)

-- `ParseInt(s, base, bits)`; a bit size of 0 in the source is 64 here.
unfoldable pub parse_int : ℕ → ℕ → Bytes → Int64 × Bool
parse_int base bits [] = (0, false)
parse_int base bits (c ∷ s) =
    if c == b'+'
    then signed bits false (parse_uint base bits s)
    else if c == b'-'
    then signed bits true (parse_uint base bits s)
    else signed bits false (parse_uint base bits (c ∷ s))

-- The decimal digits of a number before `out`, by rounds of division.
decimal_from : ℕ → ℕ → Bytes → Bytes
decimal_from zero n out = out
decimal_from (suc fuel) n out =
    let rest = decimal_from fuel (n / 10) ((b'0' + n % 10) ∷ out) in
    if ltb n 10 then (b'0' + n) ∷ out else rest

-- The decimal digits of a number below 10 ^ 20, which any 64-bit number is.
unfoldable pub decimal : ℕ → Bytes
unfolding decimal_from
decimal n = decimal_from 20 n []

-- `FormatInt(i, 10)`
unfoldable pub format_int : Int64 → Bytes
unfolding decimal
format_int i = if is_neg64 i then b'-' ∷ decimal (mod64 - i) else decimal i

-- The character of a hexadecimal digit, in upper case.
abbrev pub hex_digit : ℕ → ℕ
hex_digit d = if ltb d 10 then b'0' + d else b'A' + d - 10

pub digit-hex_digit : (d : ℕ) → d < 16 → digit (hex_digit d) ≡ some d
unfolding digit
digit-hex_digit d h = ground arith

format_int_max : format_int (2 ^ 63 - 1) ≡ codes "9223372036854775807"
unfolding format_int
format_int_max = refl

-- One more digit.
pub scan-hex_digit :
    (n d : ℕ) (s : Bytes)
    → d < 16
    → n * 16 + d < 2 ^ 64
    → scan 16 64 n (hex_digit d ∷ s) ≡ scan 16 64 (n * 16 + d) s
unfolding scan
scan-hex_digit n d s h room = ground (arith, digit-hex_digit d h)

-- A hexadecimal digit is no sign.
parse_int-hex_digit :
    (d : ℕ) (s : Bytes)
    → d < 16
    → parse_int 16 64 (hex_digit d ∷ s) ≡ signed 64 false (scan 16 64 0 (hex_digit d ∷ s))
unfolding parse_int parse_uint
parse_int-hex_digit d s h = ground arith

signed-value : (n : ℕ) → n < 2 ^ 63 → signed 64 false (value n) ≡ (n, true)
signed-value n h = ground arith

-- A hexadecimal numeral of two digits is read as its value.
pub parse_int-hex2 :
    (a b : ℕ)
    → a < 16
    → b < 16
    → parse_int 16 64 (hex_digit a ∷ hex_digit b ∷ []) ≡ (a * 16 + b, true)
parse_int-hex2 a b ha hb =
    rw
      (
        parse_int-hex_digit a _ ha,
        scan-hex_digit 0 a _ ha (omega arith),
        scan-hex_digit (0 * 16 + a) b _ hb (omega arith),
      )
      (unfold scan in signed-value _ (omega arith) ∙ ap (λ n. (n, true)) (omega arith))

-- And so is one of four digits.
pub parse_int-hex4 :
    (a b c d : ℕ)
    → a < 16
    → b < 16
    → c < 16
    → d < 16
    → parse_int 16 64 (hex_digit a ∷ hex_digit b ∷ hex_digit c ∷ hex_digit d ∷ [])
      ≡ (((a * 16 + b) * 16 + c) * 16 + d, true)
parse_int-hex4 a b c d ha hb hc hd =
    rw
      (
        parse_int-hex_digit a _ ha,
        scan-hex_digit 0 a _ ha (omega arith),
        scan-hex_digit (0 * 16 + a) b _ hb (omega arith),
        scan-hex_digit ((0 * 16 + a) * 16 + b) c _ hc (omega arith),
        scan-hex_digit (((0 * 16 + a) * 16 + b) * 16 + c) d _ hd (omega arith),
      )
      (unfold scan in signed-value _ (omega arith) ∙ ap (λ n. (n, true)) (omega arith))
