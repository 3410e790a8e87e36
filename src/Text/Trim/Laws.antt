-- ===== src/Text/Trim/Laws.antt =====
-- About strings.TrimSpace on trimmed texts.
use mathlib.Core.List.{reverse, reverse-append, reverse-reverse}
use nvidia_ci.Common.{
  ℕ, ◌≤◌, Bool, true, ◌≡◌, refl, sym, ap, ◌∙◌, subst, inl, inr, [], ◌∷◌, ◌++◌, arith, Bool-cases,
  length,
}
use nvidia_ci.Text.Defs.{Text}
use nvidia_ci.Text.Trim.{trim_left, trim_func, trim_space}

module _ (drops : ℕ → Bool) where
  length-trim_left : (s : Text) → length (trim_left drops s) ≤ length s
  unfolding trim_left
  length-trim_left [] = omega arith
  length-trim_left (c ∷ s) = ground (arith, length-trim_left s)

  trim_left_idem : (s : Text) → trim_left drops (trim_left drops s) ≡ trim_left drops s
  unfolding trim_left
  trim_left_idem [] = refl
  trim_left_idem (c ∷ s) = ground (arith, trim_left_idem s)

  -- What is dropped stands in front.
  trim_left-suffix : (s : Text) → (front : Text) × (s ≡ front ++ trim_left drops s)
  unfolding trim_left
  trim_left-suffix [] = ([], refl)
  trim_left-suffix (c ∷ s) = elim (Bool-cases (drops c)) [
    | inl e ↦ rw e (let (front, split) = trim_left-suffix s in (c ∷ front, ap (λ t. c ∷ t) split))
    | inr e ↦ rw e ([], refl)
  ]

  -- A front part of a text with nothing to drop in front has nothing to drop either.
  trim_left-front : (a b : Text) → trim_left drops (a ++ b) ≡ a ++ b → trim_left drops a ≡ a
  unfolding trim_left
  trim_left-front [] b h = refl
  trim_left-front (c ∷ a) b h = elim (Bool-cases (drops c)) [
    | inl e ↦ absurd (too_short e)
    | inr e ↦ rw e
  ]
    where
      too_short : drops c ≡ true → ⊥
      too_short e =
          let same : trim_left drops (a ++ b) ≡ c ∷ (a ++ b) = (rw e at h) in
          omega (arith, length-trim_left (a ++ b), ap length same)

  trim_func_idem : (s : Text) → trim_func drops (trim_func drops s) ≡ trim_func drops s
  unfolding trim_func
  trim_func_idem s =
      let u = trim_left drops s in
      let v = trim_left drops (reverse u) in
      let (front, split) = trim_left-suffix (reverse u) in
      let whole : u ≡ reverse v ++ reverse front =
        sym (reverse-reverse u) ∙ (ap reverse split ∙ reverse-append front v) in
      let kept : trim_left drops (reverse v) ≡ reverse v =
        trim_left-front (reverse v) (reverse front)
          (subst (λ t. trim_left drops t ≡ t) whole (trim_left_idem s)) in
      rw (kept, reverse-reverse, trim_left_idem (reverse u))

pub trim_space_idem : (s : Text) → trim_space (trim_space s) ≡ trim_space s
unfolding trim_space
trim_space_idem s = trim_func_idem _ s
