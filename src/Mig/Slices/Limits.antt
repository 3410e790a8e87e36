-- ===== src/Mig/Slices/Limits.antt =====
-- About ReadTimeSlicingParameters: the counts that it accepts, and their sum in int64.
use nvidia_ci.Common.{
  ℕ, ◌+◌, ◌*◌, ◌^◌, ◌≤◌, ◌<◌, ◌≡◌, refl, sym, ap, ◌∙◌, subst, inl, inr, false, List, [], ◌∷◌, arith,
  ltb, length, All, Bool-cases, Result, ok, err, err-ne-ok, ok_inj,
}
use nvidia_ci.Text.{Text}
use nvidia_ci.Text.Number.{ℤ, pos, negsuc, lt_int}
use nvidia_ci.Mig.Slices.Defs.{
  parse_mig_instances, default_ts_instances_csv, add_int, SliceError, sum_checked, within_limit,
  read_time_slicing_parameters,
}

abbrev pub count_of : ℤ → ℕ
count_of (pos n) = n
count_of (negsuc n) = 0

abbrev pub total : List ℤ → ℕ
total [] = 0
total (v ∷ vs) = count_of v + total vs

-- A count from 0 to the most.
abbrev pub IsUpTo : ℕ → ℤ → Type 0
IsUpTo most v = (n : ℕ) × (v ≡ pos n) × (n ≤ most)

-- An addition that stays below 2^63 is exact.
add_int-pos : (a b : ℕ) → a + b < 2 ^ 63 → add_int (pos a) (pos b) ≡ pos (a + b)
add_int-pos a b h = ground arith

not_negative : (n : ℕ) → ltb n 0 ≡ false
not_negative n = ground arith

sum_checked-IsUpTo :
    (most : ℕ) (out : List ℤ) (sum : ℤ) {z : ℤ}
    → sum_checked (pos most) out sum ≡ ok z
    → All (IsUpTo most) out
unfolding sum_checked
sum_checked-IsUpTo most [] sum h = tt
sum_checked-IsUpTo most (negsuc n ∷ out) sum h = absurd (err-ne-ok h)
sum_checked-IsUpTo most (pos n ∷ out) sum h = elim (Bool-cases (ltb most n)) [
  | inl e ↦ absurd (err-ne-ok (rw (not_negative n, e) at h))
  | inr e ↦ (
    (n, refl, ground arith),
    sum_checked-IsUpTo most out (add_int sum (pos n)) (rw (not_negative n, e) at h),
  )
]

total-le : (most : ℕ) (out : List ℤ) → All (IsUpTo most) out → total out ≤ length out * most
total-le most [] h = omega arith
total-le most (v ∷ out) ((n, e, le), h) =
    let ih = total-le most out h in let head : count_of v ≤ most = rw e le in grind arith

sum_checked-total :
    (most : ℕ) (out : List ℤ) (s : ℕ) {z : ℤ}
    → s + total out < 2 ^ 63
    → sum_checked (pos most) out (pos s) ≡ ok z
    → z ≡ pos (s + total out)
unfolding sum_checked
sum_checked-total most [] s fits h = sym (ok_inj h) ∙ ap pos (omega arith)
sum_checked-total most (negsuc n ∷ out) s fits h = absurd (err-ne-ok h)
sum_checked-total most (pos n ∷ out) s fits h = elim (Bool-cases (ltb most n)) [
  | inl e ↦ absurd (err-ne-ok (rw (not_negative n, e) at h))
  | inr e ↦
      let exact : add_int (pos s) (pos n) ≡ pos (s + n) = add_int-pos s n (omega arith) in
      sum_checked-total most out (s + n) (omega arith) (rw (not_negative n, e, exact) at h)
      ∙ ap pos (omega arith)
]

within_limit_bounds :
    (most limit : ℕ) (parsed out : List ℤ) (r : Result SliceError ℤ)
    → sum_checked (pos most) parsed (pos 0) ≡ r
    → within_limit (pos limit) parsed r ≡ ok out
    → length out * most < 2 ^ 63
    → All (IsUpTo most) out × (total out ≤ limit)
within_limit_bounds most limit parsed out (err e) at h fits = absurd (err-ne-ok h)
within_limit_bounds most limit parsed out (ok z) at h fits =
    elim (Bool-cases (lt_int (pos limit) z)) [
      | inl e ↦ absurd (err-ne-ok (rw e at h))
      | inr e ↦
          let same : parsed ≡ out = ok_inj (rw e at h) in
          let each = sum_checked-IsUpTo most parsed (pos 0) at in
          let le = total-le most parsed each in
          let fits' : length parsed * most < 2 ^ 63 =
            subst (λ o. length o * most < 2 ^ 63) (sym same) fits in
          let few : total parsed < 2 ^ 63 = omega (arith, le, fits') in
          let exact : z ≡ pos (total parsed) =
            sum_checked-total most parsed 0 (omega (arith, few)) at ∙ ap pos (omega arith) in
          let under : ltb limit (total parsed) ≡ false = rw exact at e in
          subst (λ o. All (IsUpTo most) o × (total o ≤ limit)) same (each, ground arith)
    ]

-- Accepted counts: each is at most the running slices, and if that bounds their sum below 2^63, the
-- sum is at most the limit.
pub read_time_slicing_parameters_bounds :
    (most limit : ℕ) (csv : Text) (out : List ℤ)
    → read_time_slicing_parameters (pos most) (pos limit) csv ≡ ok out
    → length out * most < 2 ^ 63
    → All (IsUpTo most) out × (total out ≤ limit)
unfolding read_time_slicing_parameters
read_time_slicing_parameters_bounds most limit csv out h fits =
    let parsed = parse_mig_instances csv default_ts_instances_csv in
    elim (Bool-cases (ltb 1 most)) [
      | inr e ↦ absurd (err-ne-ok (rw e at h))
      | inl e ↦ elim (Bool-cases (ltb 1 limit)) [
        | inr e' ↦ absurd (err-ne-ok (rw (e, e') at h))
        | inl e' ↦
            within_limit_bounds most limit parsed out (sum_checked (pos most) parsed (pos 0)) refl
              (rw (e, e') at h) fits
      ]
    ]
