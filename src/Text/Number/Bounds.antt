-- ===== src/Text/Number/Bounds.antt =====
-- About Atoi: the range of its values.
use nvidia_ci.Common.{ℕ, [], ◌∷◌, ◌≤◌, ◌≡◌, arith}
use nvidia_ci.Text.Defs.{Text}
use nvidia_ci.Text.Number.Defs.{pos, value, max_int, atoi}

-- A value that Atoi returns without an error, if it is not negative, is at most 2^63 - 1.
pub atoi-le-max_int : (s : Text) (n : ℕ) → atoi s ≡ value (pos n) → n ≤ max_int
unfolding atoi
atoi-le-max_int [] n h = cc
atoi-le-max_int (c ∷ s) n h = ground arith
