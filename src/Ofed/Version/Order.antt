-- ===== src/Ofed/Version/Order.antt =====
-- About compareDottedVersion: the versions' numbers, and their order place by place.
use nvidia_ci.Common.{
  ℕ, zero, suc, ◌+◌, ◌<◌, ◌≤◌, ◌≡◌, inl, inr, List, [], ◌∷◌, arith, length, refl, sym, ◌∙◌, get_or,
  ◌-◌, ◌==◌, leb, ltb, false, Bool-cases,
}
use native.Mathlib.Decide.{dec_lt}
use nvidia_ci.Text.{Text}
use nvidia_ci.Text.Number.{ℤ, pos, negsuc, sub_ℕ}
use nvidia_ci.Ofed.Version.Defs.{
  numeric_part, compare_from, compare_dotted_version, version_numeric_parts,
}

-- The i-th number of a version, 0 where it has no more.
abbrev pub number : Text → ℕ → ℕ
number v i = numeric_part (version_numeric_parts v) i

-- The number sequences agree up to a place and differ there.
abbrev pub LexLt : (ℕ → ℕ) → (ℕ → ℕ) → Type 0
LexLt f g = (j : ℕ) × ((i : ℕ) → i < j → f i ≡ g i) × (f j < g j)

abbrev pub Agree : (ℕ → ℕ) → (ℕ → ℕ) → Type 0
Agree f g = (i : ℕ) → f i ≡ g i

-- What the sign of a comparison's result says.
abbrev pub Orders : (ℕ → ℕ) → (ℕ → ℕ) → ℤ → Type 0
Orders f g (pos zero) = Agree f g
Orders f g (pos (suc d)) = LexLt g f
Orders f g (negsuc d) = LexLt f g

get_or-beyond : (xs : List ℕ) (k : ℕ) → length xs ≤ k → get_or xs k 0 ≡ 0
get_or-beyond [] k h = refl
get_or-beyond (x ∷ xs) zero h = absurd (omega arith)
get_or-beyond (x ∷ xs) (suc k) h = get_or-beyond xs k (omega arith)

module _ (f g : ℕ → ℕ) where
  abbrev AgreeBelow : ℕ → Type 0
  AgreeBelow i = (k : ℕ) → k < i → f k ≡ g k

  AgreeBelow-suc : (i : ℕ) → AgreeBelow i → f i ≡ g i → AgreeBelow (suc i)
  AgreeBelow-suc i h e k lt = elim (dec_lt k i) [
    | yes below ↦ h k below
    | no not_below ↦ let same : k ≡ i = omega arith in rw same e
  ]

  Orders-sub : (i : ℕ) → AgreeBelow i → (f i == g i) ≡ false → Orders f g (sub_ℕ (f i) (g i))
  Orders-sub i h differ = elim (Bool-cases (leb (g i) (f i))) [
    | inl e ↦
        let z : f i - g i ≡ suc (f i - g i - 1) = ground arith in
        rw (e, z) (i, λ k lt. sym (h k lt), ground arith)
    | inr e ↦ rw e (i, h, ground arith)
  ]

compare_from-Orders :
    (rounds i : ℕ) (a b : List ℕ)
    → AgreeBelow (numeric_part a) (numeric_part b) i
    → ((k : ℕ) → i + rounds ≤ k → numeric_part a k ≡ numeric_part b k)
    → Orders (numeric_part a) (numeric_part b) (compare_from rounds i a b)
unfolding compare_from
compare_from-Orders zero i a b below above =
    λ k. elim (dec_lt k i) [ yes lt ↦ below k lt | no ge ↦ above k (omega arith) ]
compare_from-Orders (suc rounds) i a b below above =
    elim (Bool-cases (numeric_part a i == numeric_part b i)) [
      | inl e ↦ rw e (
          compare_from-Orders rounds (suc i) a b
            (AgreeBelow-suc (numeric_part a) (numeric_part b) i below (ground arith))
            (λ k le. above k (omega arith)))
      | inr e ↦ rw e (Orders-sub (numeric_part a) (numeric_part b) i below e)
    ]

compare_parts-Orders :
    (n : ℕ) (a b : List ℕ)
    → length a ≤ n
    → length b ≤ n
    → Orders (numeric_part a) (numeric_part b) (compare_from n 0 a b)
compare_parts-Orders n a b ha hb =
    compare_from-Orders n 0 a b (λ k lt. absurd (omega arith))
      (λ k le.
        unfold numeric_part in
        get_or-beyond a k (omega arith) ∙ sym (get_or-beyond b k (omega arith)))

-- A comparison is 0 if the two versions have the same numbers, negative if the first has the
-- smaller number at the first place where they differ, and positive if it has the larger one; a
-- version that ends early counts as followed by zeros.
pub compare_dotted_version-Orders :
    (a b : Text) → Orders (number a) (number b) (compare_dotted_version a b)
unfolding compare_dotted_version
compare_dotted_version-Orders a b =
    let xs = version_numeric_parts a in
    let ys = version_numeric_parts b in
    elim (Bool-cases (ltb (length xs) (length ys))) [
      | inl e ↦ rw e (compare_parts-Orders (length ys) xs ys (ground arith) (omega arith))
      | inr e ↦ rw e (compare_parts-Orders (length xs) xs ys (omega arith) (ground arith))
    ]
