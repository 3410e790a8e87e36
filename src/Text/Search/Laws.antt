-- ===== src/Text/Search/Laws.antt =====
-- About prefixes, suffixes and searches: where what they find stands.
use nvidia_ci.Common.{
  ℕ, suc, ◌+◌, ◌-◌, ◌≡◌, refl, sym, ap, true, [], ◌∷◌, ◌++◌, some, arith, is_some, length, take,
  drop, Option-cases, false-ne-true, take-append-drop, drop-append, inl, inr, Bool-cases,
}
use native.Mathlib.Nat.{zero-add, suc-add}
use nvidia_ci.Text.Defs.{
  Text, text_eq, strip_prefix, has_prefix, has_suffix, trim_suffix, trim_prefix,
}
use nvidia_ci.Text.Search.Defs.{index, last_index, contains}

pub text_eq_sound : (s t : Text) → text_eq s t ≡ true → s ≡ t
unfolding text_eq
text_eq_sound [] [] h = refl
text_eq_sound [] (d ∷ t) h = cc
text_eq_sound (c ∷ s) [] h = cc
text_eq_sound (c ∷ s) (d ∷ t) h = ground (arith, text_eq_sound s t)

pub text_eq_refl : (s : Text) → text_eq s s ≡ true
unfolding text_eq
text_eq_refl [] = refl
text_eq_refl (c ∷ s) = ground (arith, text_eq_refl s)

pub strip_prefix_sound : (p s t : Text) → strip_prefix p s ≡ some t → s ≡ p ++ t
unfolding strip_prefix
strip_prefix_sound [] s t h = ground arith
strip_prefix_sound (b ∷ p) [] t h = cc
strip_prefix_sound (b ∷ p) (c ∷ s) t h = ground (arith, strip_prefix_sound p s t)

pub strip_prefix-append : (p t : Text) → strip_prefix p (p ++ t) ≡ some t
unfolding strip_prefix
strip_prefix-append [] t = refl
strip_prefix-append (b ∷ p) t = ground (arith, strip_prefix-append p t)

pub has_prefix-append : (p t : Text) → has_prefix p (p ++ t) ≡ true
unfolding has_prefix
has_prefix-append p t = rw strip_prefix-append

pub has_prefix_sound : (p s : Text) → has_prefix p s ≡ true → (t : Text) × (s ≡ p ++ t)
unfolding has_prefix
has_prefix_sound p s h = elim (Option-cases (strip_prefix p s)) [
  | inl e ↦ cc (ap is_some e)
  | inr (t, e) ↦ (t, strip_prefix_sound p s t e)
]

-- What a found needle says of the text: it splits it.
abbrev pub SplitsAt : Text → Text → ℕ → Type 0
SplitsAt n s i = s ≡ take i s ++ (n ++ drop (i + length n) s)

SplitsAt-zero : (n s : Text) → has_prefix n s ≡ true → SplitsAt n s 0
SplitsAt-zero n s h =
    let (t, e) = has_prefix_sound n s h in
    rw e (rw zero-add (ap (λ r. n ++ r) (sym (drop-append n t))))

SplitsAt-suc : (n s : Text) (c i : ℕ) → SplitsAt n s i → SplitsAt n (c ∷ s) (suc i)
SplitsAt-suc n s c i h = rw suc-add (ap (λ t. c ∷ t) h)

-- The found needle splits the text.
pub index_sound : (n s : Text) (i : ℕ) → index n s ≡ some i → SplitsAt n s i
unfolding index
index_sound n [] i h = elim (Bool-cases (has_prefix n [])) [
  | inl e ↦ let z : i ≡ 0 = ground arith in rw z (SplitsAt-zero n [] e)
  | inr e ↦ absurd (ground arith)
]
index_sound n (c ∷ s) i h = elim (Bool-cases (has_prefix n (c ∷ s))) [
  | inl e ↦ let z : i ≡ 0 = ground arith in rw z (SplitsAt-zero n (c ∷ s) e)
  | inr e ↦ elim (Option-cases (index n s)) [
    | inl none_found ↦ absurd (ground arith)
    | inr (j, found) ↦
        let z : i ≡ suc j = ground arith in rw z (SplitsAt-suc n s c j (index_sound n s j found))
  ]
]

-- So does the last one.
pub last_index_sound : (n s : Text) (i : ℕ) → last_index n s ≡ some i → SplitsAt n s i
unfolding last_index
last_index_sound n [] i h = elim (Bool-cases (has_prefix n [])) [
  | inl e ↦ let z : i ≡ 0 = ground arith in rw z (SplitsAt-zero n [] e)
  | inr e ↦ absurd (ground arith)
]
last_index_sound n (c ∷ s) i h = elim (Option-cases (last_index n s)) [
  | inr (j, found) ↦
      let z : i ≡ suc j = ground arith in rw z (SplitsAt-suc n s c j (last_index_sound n s j found))
  | inl none_found ↦ elim (Bool-cases (has_prefix n (c ∷ s))) [
    | inl e ↦ let z : i ≡ 0 = ground arith in rw z (SplitsAt-zero n (c ∷ s) e)
    | inr e ↦ absurd (ground arith)
  ]
]

-- A needle that stands in a text is found.
pub contains-append : (a n b : Text) → contains n (a ++ (n ++ b)) ≡ true
unfolding contains index
contains-append [] [] [] = unfold has_prefix strip_prefix in refl
contains-append [] [] (c ∷ b) = unfold has_prefix strip_prefix in refl
contains-append [] (c ∷ n) b = rw (has_prefix-append (c ∷ n) b)
contains-append (c ∷ a) n b = ground (arith, contains-append a n b)

pub has_suffix_sound : (p s : Text) → has_suffix p s ≡ true → s ≡ take (length s - length p) s ++ p
unfolding has_suffix
has_suffix_sound p s h = ground (
  arith,
  text_eq_sound (drop (length s - length p) s) p,
  take-append-drop (length s - length p) s,
)

pub trim_suffix-append : (p s : Text) → has_suffix p s ≡ true → trim_suffix p s ++ p ≡ s
unfolding trim_suffix
trim_suffix-append p s h = rw h (sym (has_suffix_sound p s h))

pub trim_prefix-append : (p s : Text) → has_prefix p s ≡ true → s ≡ p ++ trim_prefix p s
unfolding has_prefix trim_prefix
trim_prefix-append p s h = elim (Option-cases (strip_prefix p s)) [
  | inl e ↦ absurd (false-ne-true (rw e at h))
  | inr (t, e) ↦ rw (e, trim_prefix) (strip_prefix_sound p s t e)
]
