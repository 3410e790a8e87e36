-- ===== src/Text/Trim.antt =====
-- strings.TrimSpace, strings.Trim and strings.EqualFold.
pub mod Laws
use mathlib.Core.List.{reverse}
use nvidia_ci.Common.{ℕ, ◌+◌, Bool, ◌&&◌, ◌||◌, List, [], ◌∷◌, ◌==◌, leb, if◌then◌else◌, map}
use nvidia_ci.Text.Defs.{Text, text_eq}

-- '\t', '\n', '\v', '\f', '\r' and ' '
unfoldable pub is_space : ℕ → Bool
is_space c = c == 32 || (leb 9 c && leb c 13)

unfoldable pub trim_left : (ℕ → Bool) → Text → Text
trim_left drops [] = []
trim_left drops (c ∷ s) = if drops c then trim_left drops s else c ∷ s

-- strings.TrimFunc(s, drops)
unfoldable pub trim_func : (ℕ → Bool) → Text → Text
unfolding trim_left
trim_func drops s = reverse (trim_left drops (reverse (trim_left drops s)))

-- strings.TrimSpace(s)
unfoldable pub trim_space : Text → Text
unfolding trim_func is_space
trim_space = trim_func is_space

unfoldable pub to_lower : ℕ → ℕ
to_lower c = if leb b'A' c && leb c b'Z' then c + 32 else c

-- strings.EqualFold(s, t)
unfoldable pub equal_fold : Text → Text → Bool
unfolding to_lower text_eq
equal_fold s t = text_eq (map to_lower s) (map to_lower t)
