-- ===== src/Regex/Defs.antt =====
-- Patterns and a matcher that lists all matches at the start of a text in priority order.
use nvidia_ci.Common.{
  ℕ, zero, suc, Bool, List, [], ◌∷◌, ◌++◌, Option, none, some, if◌then◌else◌, length, map, ◌==◌,
  leb, ◌&&◌, ◌||◌,
}
use nvidia_ci.Text.{Text, is_empty, strip_prefix}
use nvidia_ci.Text.Number.{is_digit}

pub data Regex : Type 0 where
  byte : (ℕ → Bool) → Regex
  literal : Text → Regex
  seq : Regex → Regex → Regex
  opt : Regex → Regex
  star : Regex → Regex
  group : Regex → Regex

-- What a pattern took, the text behind it, and the groups from left to right.
pub record Match : Type 0 where
  pub taken : Text
  pub rest : Text
  pub groups : List Text

-- The match `a`, then `b` behind it.
unfoldable pub join : Match → Match → Match
join a b = record { taken = a.taken ++ b.taken; rest = b.rest; groups = a.groups ++ b.groups }

-- Each match is continued by each of its continuations, in order.
unfoldable pub continue : List Match → (Text → List Match) → List Match
unfolding join
continue [] f = []
continue (m ∷ ms) f = map (join m) (f m.rest) ++ continue ms f

unfoldable pub nothing : Text → Match
nothing s = record { taken = []; rest = s; groups = [] }

-- The matches that took at least one byte.
unfoldable pub progress : List Match → List Match
progress [] = []
progress (m ∷ ms) = let rest = progress ms in if is_empty m.taken then rest else m ∷ rest

-- As many rounds as possible come first; no round is empty, so `length s` rounds are enough.
unfoldable pub repeat : (Text → List Match) → ℕ → Text → List Match
unfolding continue progress nothing
repeat f zero s = nothing s ∷ []
repeat f (suc k) s = continue (progress (f s)) (repeat f k) ++ nothing s ∷ []

abbrev pub literal_at : Text → Text → List Match
literal_at p s = elim (strip_prefix p s) [
  | none ↦ []
  | some t ↦ record { taken = p; rest = t; groups = [] } ∷ []
]

abbrev pub byte_at : (ℕ → Bool) → Text → List Match
byte_at p [] = []
byte_at p (c ∷ s) = if p c then record { taken = c ∷ []; rest = s; groups = [] } ∷ [] else []

abbrev pub capture : Match → Match
capture m = record m { groups = m.taken ∷ m.groups }

unfoldable pub run : Regex → Text → List Match
unfolding repeat strip_prefix
run (byte p) s = byte_at p s
run (literal p) s = literal_at p s
run (seq a b) s = continue (run a s) (run b)
run (opt a) s = run a s ++ nothing s ∷ []
run (star a) s = repeat (run a) (length s) s
run (group a) s = map capture (run a s)

abbrev pub first : List Match → Option Match
first [] = none
first (m ∷ ms) = some m

-- FindStringSubmatch: the first match at the leftmost place that has one.
unfoldable pub find : Regex → Text → Option Match
unfolding run
find r [] = first (run r [])
find r (c ∷ s) = elim (first (run r (c ∷ s))) [ some m ↦ some m | none ↦ find r s ]

-- FindAllString for a pattern that matches no empty text: from left to right, without overlap.
-- Each match takes a byte, so `length s` rounds are enough.
unfoldable pub find_rounds : ℕ → Regex → Text → List Match
unfolding find
find_rounds zero r s = []
find_rounds (suc k) r s = elim (find r s) [ none ↦ [] | some m ↦ m ∷ find_rounds k r m.rest ]

unfoldable pub find_all : Regex → Text → List Match
unfolding find_rounds
find_all r s = find_rounds (length s) r s

-- x+
abbrev pub plus : Regex → Regex
plus r = seq r (star r)

abbrev pub digit : Regex
digit = byte is_digit

-- \w
unfoldable pub is_word : ℕ → Bool
unfolding is_digit
is_word c = is_digit c || (leb b'a' c && leb c b'z') || (leb b'A' c && leb c b'Z') || c == b'_'
