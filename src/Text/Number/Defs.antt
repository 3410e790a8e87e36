-- ===== src/Text/Number/Defs.antt =====
-- The integers, decimal digits, and Atoi with its two errors.
use nvidia_ci.Common.{
  ℕ, zero, suc, ◌+◌, ◌-◌, ◌*◌, ◌^◌, Bool, true, false, ◌&&◌, [], ◌∷◌, ◌==◌, leb, ltb, if◌then◌else◌,
}
use nvidia_ci.Text.Defs.{Text}

-- `negsuc n` is -(n + 1).
pub data ℤ : Type 0 where
  pos : ℕ → ℤ
  negsuc : ℕ → ℤ

-- a - b, as an integer
abbrev pub sub_ℕ : ℕ → ℕ → ℤ
sub_ℕ a b = if leb b a then pos (a - b) else negsuc (b - a - 1)

abbrev pub neg : ℕ → ℤ
neg zero = pos 0
neg (suc n) = negsuc n

-- The numbers that an int64 holds: 0 .. 2^63 - 1 above, 1 .. 2^63 below.
abbrev pub max_int : ℕ
max_int = 2 ^ 63 - 1

abbrev pub max_uint : ℕ
max_uint = 2 ^ 64 - 1

-- The value, ErrSyntax (whose value is 0), or ErrRange with the nearest value that fits.
pub data Parsed : Type 0 where
  value : ℤ → Parsed
  bad_syntax : Parsed
  out_of_range : ℤ → Parsed

unfoldable pub is_digit : ℕ → Bool
is_digit c = leb b'0' c && leb c b'9'

pub data Scanned : Type 0 where
  scanned : ℕ → Scanned
  invalid overflow : Scanned

-- The loop of strconv.ParseUint: it stops at the first byte that is no digit or does not fit.
unfoldable pub scan : Text → ℕ → Scanned
unfolding is_digit
scan [] n = scanned n
scan (c ∷ s) n =
    if is_digit c
    then if leb (n * 10 + (c - b'0')) max_uint then scan s (n * 10 + (c - b'0')) else overflow
    else invalid

abbrev pub signed : Bool → Scanned → Parsed
signed negative invalid = bad_syntax
signed negative overflow =
    if negative then out_of_range (negsuc max_int) else out_of_range (pos max_int)
signed negative (scanned n) =
    if negative
    then if leb n (max_int + 1) then value (neg n) else out_of_range (negsuc max_int)
    else if leb n max_int
    then value (pos n)
    else out_of_range (pos max_int)

-- A number needs a digit.
unfoldable pub scan_some : Text → Scanned
unfolding scan
scan_some [] = invalid
scan_some (c ∷ s) = scan (c ∷ s) 0

-- strconv.Atoi(s)
unfoldable pub atoi : Text → Parsed
unfolding scan_some
atoi [] = bad_syntax
atoi (c ∷ s) =
    if c == b'-'
    then signed true (scan_some s)
    else if c == b'+'
    then signed false (scan_some s)
    else signed false (scan_some (c ∷ s))

-- a < b
abbrev pub lt_int : ℤ → ℤ → Bool
lt_int (pos a) (pos b) = ltb a b
lt_int (pos a) (negsuc b) = false
lt_int (negsuc a) (pos b) = true
lt_int (negsuc a) (negsuc b) = ltb b a

unfoldable pub eq_int : ℤ → ℤ → Bool
eq_int a b = if lt_int a b then false else if lt_int b a then false else true
