-- ===== src/Regex/Sound.antt =====
-- About the matcher: where a match stands in the text.
use nvidia_ci.Common.{
  ℕ, zero, suc, ◌≡◌, refl, ap, ◌∙◌, List, [], ◌∷◌, ◌++◌, append_assoc, map, some, arith, length,
  All, Option-cases, inl, inr,
}
use nvidia_ci.Text.{Text, strip_prefix}
use nvidia_ci.Text.Search.{strip_prefix_sound}
use nvidia_ci.Regex.Defs.{
  Regex, byte, literal, seq, opt, star, group, Match, join, continue, nothing, progress, repeat,
  run, capture, find, first,
}

abbrev pub Splits : Text → Match → Type 0
Splits s m = s ≡ m.taken ++ m.rest

All-append :
    (s : Text) (ms ns : List Match)
    → All (Splits s) ms
    → All (Splits s) ns
    → All (Splits s) (ms ++ ns)
All-append s [] ns h k = k
All-append s (m ∷ ms) ns (p, h) k = (p, All-append s ms ns h k)

map-join :
    {s : Text} (m : Match) (ns : List Match)
    → Splits s m
    → All (Splits m.rest) ns
    → All (Splits s) (map (join m) ns)
unfolding join
map-join m [] h k = tt
map-join m (n ∷ ns) h (p, k) = (cc (append_assoc m.taken n.taken n.rest), map-join m ns h k)

map-capture : (s : Text) (ms : List Match) → All (Splits s) ms → All (Splits s) (map capture ms)
map-capture s [] h = tt
map-capture s (m ∷ ms) (p, h) = (p, map-capture s ms h)

continue-Splits :
    (s : Text) (ms : List Match) (f : Text → List Match)
    → ((t : Text) → All (Splits t) (f t))
    → All (Splits s) ms
    → All (Splits s) (continue ms f)
unfolding continue
continue-Splits s [] f hf h = tt
continue-Splits s (m ∷ ms) f hf (p, h) =
    All-append s (map (join m) (f m.rest)) (continue ms f) (map-join m (f m.rest) p (hf m.rest))
      (continue-Splits s ms f hf h)

progress-Splits : (s : Text) (ms : List Match) → All (Splits s) ms → All (Splits s) (progress ms)
unfolding progress
progress-Splits s [] h = tt
progress-Splits s (m ∷ ms) (p, h) = ground (arith, progress-Splits s ms h)

repeat-Splits :
    (f : Text → List Match)
    → ((t : Text) → All (Splits t) (f t))
    → (k : ℕ) (s : Text) → All (Splits s) (repeat f k s)
unfolding repeat nothing
repeat-Splits f hf zero s = (refl, tt)
repeat-Splits f hf (suc k) s =
    All-append s (continue (progress (f s)) (repeat f k)) _
      (continue-Splits s (progress (f s)) (repeat f k) (repeat-Splits f hf k)
        (progress-Splits s (f s) (hf s)))
      (refl, tt)

-- A match takes a prefix of the text and leaves the rest.
pub run-Splits : (r : Regex) (s : Text) → All (Splits s) (run r s)
unfolding run
run-Splits (byte p) [] = tt
run-Splits (byte p) (c ∷ s) = ground arith
run-Splits (literal p) s = elim (Option-cases (strip_prefix p s)) [
  | inl e ↦ rw (e, All) tt
  | inr (t, e) ↦ rw (e, All) (strip_prefix_sound p s t e, tt)
]
run-Splits (seq a b) s = continue-Splits s (run a s) (run b) (run-Splits b) (run-Splits a s)
run-Splits (opt a) s = All-append s (run a s) _ (run-Splits a s) (unfold nothing in (refl, tt))
run-Splits (star a) s = repeat-Splits (run a) (run-Splits a) (length s) s
run-Splits (group a) s = map-capture s (run a s) (run-Splits a s)

first-Splits :
    {s : Text} (ms : List Match) {m : Match} → All (Splits s) ms → first ms ≡ some m → Splits s m
first-Splits [] h e = cc
first-Splits (n ∷ ms) {m} (p, h) e = ground arith

-- A found match stands in the text.
pub find_sound :
    (r : Regex) (s : Text) {m : Match}
    → find r s ≡ some m
    → (before : Text) × (s ≡ before ++ (m.taken ++ m.rest))
unfolding find
find_sound r [] h = ([], first-Splits (run r []) (run-Splits r []) h)
find_sound r (c ∷ s) {m} h = elim (Option-cases (first (run r (c ∷ s)))) [
  | inl e ↦
      let (before, split) = find_sound r s (rw (e, find) at h) in
      (c ∷ before, ap (λ t. c ∷ t) split)
  | inr (n, e) ↦ ([], first-Splits (run r (c ∷ s)) (run-Splits r (c ∷ s)) (e ∙ (rw (e, find) at h)))
]
