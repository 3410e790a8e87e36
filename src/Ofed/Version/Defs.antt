-- ===== src/Ofed/Version/Defs.antt =====
-- Dotted versions as lists of numbers, and their comparison.
use nvidia_ci.Common.{
  ℕ, zero, suc, Bool, ◌||◌, List, [], ◌∷◌, ◌==◌, ltb, if◌then◌else◌, length, get_or,
}
use nvidia_ci.Text.{Text}
use nvidia_ci.Text.Split.{fields_func}
use nvidia_ci.Text.Number.{ℤ, pos, sub_ℕ, Parsed, value, atoi}

abbrev is_separator : ℕ → Bool
is_separator r = r == b'.' || r == b'-'

-- A part that Atoi accepts is appended; any other is skipped. No part holds a minus sign.
unfoldable pub add_part : Parsed → List ℕ → List ℕ
add_part (value (pos n)) parts = n ∷ parts
add_part _ parts = parts

unfoldable pub numeric_parts : List Text → List ℕ
unfolding add_part atoi
numeric_parts [] = []
numeric_parts (p ∷ raw) = add_part (atoi p) (numeric_parts raw)

unfoldable pub version_numeric_parts : Text → List ℕ
unfolding numeric_parts fields_func
version_numeric_parts version = numeric_parts (fields_func is_separator version)

-- parts[i], with 0 behind the end
unfoldable pub numeric_part : List ℕ → ℕ → ℕ
numeric_part parts i = get_or parts i 0

-- The loop from `i`, with the rounds left.
unfoldable pub compare_from : ℕ → ℕ → List ℕ → List ℕ → ℤ
unfolding numeric_part
compare_from zero i a b = pos 0
compare_from (suc rounds) i a b =
    let ai = numeric_part a i in
    let bi = numeric_part b i in
    let later = compare_from rounds (suc i) a b in if ai == bi then later else sub_ℕ ai bi

unfoldable pub compare_dotted_version : Text → Text → ℤ
unfolding compare_from version_numeric_parts
compare_dotted_version a b =
    let a_parts = version_numeric_parts a in
    let b_parts = version_numeric_parts b in
    let n = if ltb (length a_parts) (length b_parts) then length b_parts else length a_parts in
    compare_from n 0 a_parts b_parts
