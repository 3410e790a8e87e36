-- ===== src/Mig/Slices/Defs.antt =====
-- Counts in a text, and the checks of the time-slicing counts.
use nvidia_ci.Common.{
  ℕ, ◌+◌, ◌-◌, ◌^◌, Bool, not, List, [], ◌∷◌, Option, none, some, if◌then◌else◌, ltb, is_nil,
  Result, ok, err,
}
use Prim.Native.Nat.{◌%◌}
use nvidia_ci.Text.{Text, codes}
use nvidia_ci.Text.Number.{ℤ, pos, negsuc, lt_int, Parsed, value, bad_syntax, out_of_range, atoi}
use nvidia_ci.Regex.{Regex, Match, plus, digit, find_all}

abbrev pub digits_regexp : Regex
digits_regexp = plus digit

-- `instance, _ := strconv.Atoi(match)`: the value, also behind an error.
abbrev pub value_of : Parsed → ℤ
value_of (value z) = z
value_of bad_syntax = pos 0
value_of (out_of_range z) = z

unfoldable pub instances_of : List Match → List ℤ
unfolding atoi
instances_of [] = []
instances_of (m ∷ ms) = value_of (atoi m.taken) ∷ instances_of ms

unfoldable pub parse_mig_instances : Text → Text → List ℤ
unfolding instances_of find_all
parse_mig_instances s defaults =
    let matches = find_all digits_regexp s in
    let of_defaults = find_all digits_regexp defaults in
    instances_of (if is_nil matches then of_defaults else matches)

abbrev pub default_mig_instances : Text
default_mig_instances = codes "-1"

abbrev pub default_ts_instances_csv : Text
default_ts_instances_csv = codes "8"

-- ParseCLIParameters; `none` is nil.
unfoldable pub mixed_mig_instances : Bool → Text → Option (List ℤ)
unfolding parse_mig_instances
mixed_mig_instances provided s =
    if provided then some (parse_mig_instances s default_mig_instances) else none

abbrev pub a100_instances : List ℤ
a100_instances = pos 2 ∷ pos 0 ∷ pos 1 ∷ pos 1 ∷ pos 0 ∷ pos 0 ∷ []

unfoldable pub read_mig_parameter : Option (List ℤ) → List ℤ
read_mig_parameter none = a100_instances
read_mig_parameter (some instances) = instances

-- An int64 as its bit pattern.
abbrev pub to_bits : ℤ → ℕ
to_bits (pos n) = n % 2 ^ 64
to_bits (negsuc n) = (2 ^ 64 - 1) - (n % 2 ^ 64)

abbrev pub of_bits : ℕ → ℤ
of_bits b = if ltb b (2 ^ 63) then pos b else negsuc ((2 ^ 64 - 1) - b)

-- sum += v, in int64
abbrev pub add_int : ℤ → ℤ → ℤ
add_int a b = of_bits ((to_bits a + to_bits b) % 2 ^ 64)

pub data SliceError : Type 0 where
  max_too_small limit_too_small negative over_max over_limit : SliceError

-- The loop over the counts.
unfoldable pub sum_checked : ℤ → List ℤ → ℤ → Result SliceError ℤ
sum_checked max_slices [] sum = ok sum
sum_checked max_slices (v ∷ out) sum =
    let later = sum_checked max_slices out (add_int sum v) in
    if lt_int v (pos 0) then err negative else if lt_int max_slices v then err over_max else later

abbrev pub within_limit : ℤ → List ℤ → Result SliceError ℤ → Result SliceError (List ℤ)
within_limit limit out (err e) = err e
within_limit limit out (ok sum) = if lt_int limit sum then err over_limit else ok out

unfoldable pub read_time_slicing_parameters : ℤ → ℤ → Text → Result SliceError (List ℤ)
unfolding sum_checked parse_mig_instances
read_time_slicing_parameters max_slices limit csv =
    let out = parse_mig_instances csv default_ts_instances_csv in
    if not (lt_int (pos 1) max_slices)
    then err max_too_small
    else if not (lt_int (pos 1) limit)
    then err limit_too_small
    else within_limit limit out (sum_checked max_slices out (pos 0))
