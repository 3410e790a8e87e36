-- ===== src/Text/Split.antt =====
-- strings.Split at one byte, and strings.FieldsFunc.
use nvidia_ci.Common.{ℕ, Bool, List, [], ◌∷◌, ◌==◌, if◌then◌else◌}
use nvidia_ci.Text.Defs.{Text, is_empty}

-- Puts a byte at the front of the first part.
abbrev pub extend : ℕ → List Text → List Text
extend c [] = (c ∷ []) ∷ []
extend c (p ∷ ps) = (c ∷ p) ∷ ps

-- strings.Split(s, sep) for a separator of one byte
unfoldable pub split : ℕ → Text → List Text
split sep [] = [] ∷ []
split sep (c ∷ s) = let rest = split sep s in if c == sep then [] ∷ rest else extend c rest

-- The maximal runs of bytes that are no separators; `pieces` keeps the empty ones.
unfoldable pub pieces : (ℕ → Bool) → Text → List Text
pieces is_sep [] = [] ∷ []
pieces is_sep (c ∷ s) = let rest = pieces is_sep s in if is_sep c then [] ∷ rest else extend c rest

unfoldable pub drop_empty : List Text → List Text
drop_empty [] = []
drop_empty (p ∷ ps) = let rest = drop_empty ps in if is_empty p then rest else p ∷ rest

-- strings.FieldsFunc(s, is_sep)
unfoldable pub fields_func : (ℕ → Bool) → Text → List Text
unfolding pieces drop_empty
fields_func is_sep s = drop_empty (pieces is_sep s)
