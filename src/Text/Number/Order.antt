-- ===== src/Text/Number/Order.antt =====
-- About the order of the integers.
use nvidia_ci.Common.{
  ◌≡◌, ap, Bool, true, false, if◌then◌else◌, arith, false-ne-true, Bool-cases, inl, inr, sym, ◌∙◌,
}
use nvidia_ci.Text.Number.Defs.{ℤ, pos, negsuc, lt_int, eq_int}

pub lt_int_irrefl : (a : ℤ) → lt_int a a ≡ false
lt_int_irrefl (pos a) = ground arith
lt_int_irrefl (negsuc a) = ground arith

pub lt_int_trans : (a b c : ℤ) → lt_int a b ≡ true → lt_int b c ≡ true → lt_int a c ≡ true
lt_int_trans (pos a) (pos b) (pos c) h i = ground arith
lt_int_trans (pos a) (pos b) (negsuc c) h i = ground arith
lt_int_trans (pos a) (negsuc b) c h i = absurd (false-ne-true h)
lt_int_trans (negsuc a) (pos b) (pos c) h i = ground arith
lt_int_trans (negsuc a) (pos b) (negsuc c) h i = absurd (false-ne-true i)
lt_int_trans (negsuc a) (negsuc b) (pos c) h i = ground arith
lt_int_trans (negsuc a) (negsuc b) (negsuc c) h i = ground arith

pub lt_int_antisym : (a b : ℤ) → lt_int a b ≡ false → lt_int b a ≡ false → a ≡ b
lt_int_antisym (pos a) (pos b) h i = ap pos (ground arith)
lt_int_antisym (pos a) (negsuc b) h i = absurd (false-ne-true (sym i))
lt_int_antisym (negsuc a) (pos b) h i = absurd (false-ne-true (sym h))
lt_int_antisym (negsuc a) (negsuc b) h i = ap negsuc (ground arith)

-- Not behind b, and b before c.
pub not_behind : (a b c : ℤ) → lt_int a b ≡ false → lt_int a c ≡ true → lt_int c b ≡ false
not_behind a b c h i = elim (Bool-cases (lt_int c b)) [
  | inl e ↦ absurd (false-ne-true (sym h ∙ lt_int_trans a c b i e))
  | inr e ↦ e
]

pub eq_int_sound : (a b : ℤ) → eq_int a b ≡ true → a ≡ b
unfolding eq_int
eq_int_sound a b h = elim (Bool-cases (lt_int a b)) [
  | inl e ↦ absurd (false-ne-true (sym (ap (tested b a) e) ∙ h))
  | inr e ↦ elim (Bool-cases (lt_int b a)) [
    | inl f ↦
        absurd (false-ne-true (sym (ap (tested b a) e ∙ ap (λ t. if t then false else true) f) ∙ h))
    | inr f ↦ lt_int_antisym a b e f
  ]
]
  where
    tested : ℤ → ℤ → Bool → Bool
    tested b a t = if t then false else if lt_int b a then false else true

pub eq_int_refl : (a : ℤ) → eq_int a a ≡ true
unfolding eq_int
eq_int_refl a = rw (lt_int_irrefl a)
