-- ===== src/Ofed/Version/Latest.antt =====
-- About compareDottedVersion: the order that the choice of a latest version needs.
use nvidia_ci.Common.{ℕ, zero, suc, ◌<◌, ◌≡◌, ◌∙◌, refl, ◌⊎◌, inl, inr, Bool, true, false, arith}
use native.Mathlib.Decide.{dec_lt}
use nvidia_ci.Text.{Text}
use nvidia_ci.Text.Number.{ℤ, pos, negsuc}
use nvidia_ci.Ofed.Version.Defs.{compare_dotted_version}
use nvidia_ci.Ofed.Version.Order.{number, LexLt, Agree, Orders, compare_dotted_version-Orders}

-- The test `> 0` of the selection loop.
abbrev pub positive : ℤ → Bool
positive (pos zero) = false
positive (pos (suc d)) = true
positive (negsuc d) = false

-- The version `a` is not later than `b`.
abbrev pub NotLater : Text → Text → Type 0
NotLater a b = LexLt (number a) (number b) ⊎ Agree (number a) (number b)

LexLt-trans : (f g h : ℕ → ℕ) → LexLt f g → LexLt g h → LexLt f h
LexLt-trans f g h (j, same, lt) (k, same', lt') = elim (dec_lt j k) [
  | yes jk ↦ (j, λ i ij. same i ij ∙ same' i (omega arith), omega (arith, same' j jk))
  | no kj ↦ elim (dec_lt k j) [
    | yes lt_kj ↦ (k, λ i ik. same i (omega arith) ∙ same' i ik, omega (arith, same k lt_kj))
    | no jk ↦
        let e : k ≡ j = omega arith in
        let later : g j < h j = rw e at lt' in
        (j, λ i ij. same i ij ∙ same' i (omega arith), omega arith)
  ]
]

LexLt-Agree : (f g h : ℕ → ℕ) → LexLt f g → Agree g h → LexLt f h
LexLt-Agree f g h (j, same, lt) e = (j, λ i ij. same i ij ∙ e i, omega (arith, e j))

Agree-LexLt : (f g h : ℕ → ℕ) → Agree f g → LexLt g h → LexLt f h
Agree-LexLt f g h e (j, same, lt) = (j, λ i ij. e i ∙ same i ij, omega (arith, e j))

pub NotLater-refl : (a : Text) → NotLater a a
NotLater-refl a = inr (λ i. refl)

pub NotLater-trans : (a b c : Text) → NotLater a b → NotLater b c → NotLater a c
NotLater-trans a b c (inl p) (inl q) = inl (LexLt-trans (number a) (number b) (number c) p q)
NotLater-trans a b c (inl p) (inr q) = inl (LexLt-Agree (number a) (number b) (number c) p q)
NotLater-trans a b c (inr p) (inl q) = inl (Agree-LexLt (number a) (number b) (number c) p q)
NotLater-trans a b c (inr p) (inr q) = inr (λ i. p i ∙ q i)

positive-Orders : (f g : ℕ → ℕ) (z : ℤ) → Orders f g z → positive z ≡ true → LexLt g f
positive-Orders f g (pos zero) h e = cc
positive-Orders f g (pos (suc d)) h e = h
positive-Orders f g (negsuc d) h e = cc

not_positive-Orders :
    (f g : ℕ → ℕ) (z : ℤ) → Orders f g z → positive z ≡ false → LexLt f g ⊎ Agree f g
not_positive-Orders f g (pos zero) h e = inr h
not_positive-Orders f g (pos (suc d)) h e = cc
not_positive-Orders f g (negsuc d) h e = inl h

-- A positive comparison: the second version is earlier.
pub positive-NotLater : (a b : Text) → positive (compare_dotted_version a b) ≡ true → NotLater b a
positive-NotLater a b e =
    inl (positive-Orders (number a) (number b) _ (compare_dotted_version-Orders a b) e)

pub not_positive-NotLater :
    (a b : Text) → positive (compare_dotted_version a b) ≡ false → NotLater a b
not_positive-NotLater a b e =
    not_positive-Orders (number a) (number b) _ (compare_dotted_version-Orders a b) e
