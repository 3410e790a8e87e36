-- ===== src/Text/Defs.antt =====
-- Texts as lists of bytes: comparison, literals, prefixes and suffixes.
use Prim.Native.Char.{code}
use nvidia_ci.Common.{
  ℕ, ◌-◌, String, Bool, true, false, ◌&&◌, List, [], ◌∷◌, Option, none, some, ◌==◌, leb,
  if◌then◌else◌, is_some, length, take, drop,
}

abbrev pub Text : Type 0
Text = List ℕ

-- The code points of a literal: its bytes, as all literals are ASCII.
abbrev pub codes : String → Text
codes String.[] = []
codes (String.◌∷◌ c s) = code c ∷ codes s

-- s == t
unfoldable pub text_eq : Text → Text → Bool
text_eq [] [] = true
text_eq [] (d ∷ t) = false
text_eq (c ∷ s) [] = false
text_eq (c ∷ s) (d ∷ t) = c == d && text_eq s t

-- s == ""
abbrev pub is_empty : Text → Bool
is_empty [] = true
is_empty (c ∷ s) = false

-- What follows the prefix `p`, if the text begins with it.
unfoldable pub strip_prefix : Text → Text → Option Text
strip_prefix [] s = some s
strip_prefix (b ∷ p) [] = none
strip_prefix (b ∷ p) (c ∷ s) = if b == c then strip_prefix p s else none

-- strings.HasPrefix(s, p), the prefix first
unfoldable pub has_prefix : Text → Text → Bool
unfolding strip_prefix
has_prefix p s = is_some (strip_prefix p s)

-- strings.TrimPrefix(s, p)
unfoldable pub trim_prefix : Text → Text → Text
unfolding strip_prefix
trim_prefix p s = elim (strip_prefix p s) [ none ↦ s | some t ↦ t ]

-- strings.HasSuffix(s, p)
unfoldable pub has_suffix : Text → Text → Bool
unfolding text_eq
has_suffix p s = leb (length p) (length s) && text_eq (drop (length s - length p) s) p

-- strings.TrimSuffix(s, p)
unfoldable pub trim_suffix : Text → Text → Text
unfolding has_suffix
trim_suffix p s = if has_suffix p s then take (length s - length p) s else s
