-- ===== src/Text/Search/Defs.antt =====
-- Where a text holds another.
use mathlib.Core.Option
use nvidia_ci.Common.{
  ℕ, suc, ◌+◌, Bool, true, false, [], ◌∷◌, Option, none, some, if◌then◌else◌, is_some, length, take,
  drop, ◌==◌, ◌||◌,
}
use nvidia_ci.Text.Defs.{Text, has_prefix}

-- strings.Index(s, needle), with `none` for -1
unfoldable pub index : Text → Text → Option ℕ
unfolding has_prefix
index needle [] = if has_prefix needle [] then some 0 else none
index needle (c ∷ s) = if has_prefix needle (c ∷ s) then some 0 else Option.map suc (index needle s)

-- strings.Contains(s, needle)
unfoldable pub contains : Text → Text → Bool
unfolding index
contains needle s = is_some (index needle s)

-- strings.LastIndex(s, needle), with `none` for -1
unfoldable pub last_index : Text → Text → Option ℕ
unfolding has_prefix
last_index needle [] = if has_prefix needle [] then some 0 else none
last_index needle (c ∷ s) = elim (last_index needle s) [
  | some i ↦ some (suc i)
  | none ↦ if has_prefix needle (c ∷ s) then some 0 else none
]

-- The three results of strings.Cut(s, sep).
pub record Pieces : Type 0 where
  pub before : Text
  pub after : Text
  pub found : Bool

unfoldable pub cut : Text → Text → Pieces
unfolding index
cut sep s = elim (index sep s) [
  | none ↦ record { before = s; after = []; found = false }
  | some i ↦ record { before = take i s; after = drop (i + length sep) s; found = true }
]

-- One byte of `cs` occurs in the text: strings.ContainsAny(s, cs) for ASCII `cs`.
unfoldable pub contains_byte : ℕ → Text → Bool
contains_byte b [] = false
contains_byte b (c ∷ s) = b == c || contains_byte b s

unfoldable pub contains_any : Text → Text → Bool
unfolding contains_byte
contains_any [] s = false
contains_any (b ∷ cs) s = contains_byte b s || contains_any cs s
