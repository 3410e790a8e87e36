-- ===== src/Mig/Params.antt =====
-- ReadBurnTime, ReadDelayBetweenPods and ReadSingleMIGParameter of pkg/mig/mig.go.
use nvidia_ci.Common.{
  ℕ, zero, suc, ◌+◌, ◌-◌, ◌≤◌, ◌≡◌, refl, arith, ltb, inl, inr, Bool-cases, if◌then◌else◌,
}
use nvidia_ci.Text.Number.{ℤ, pos, negsuc, lt_int}

abbrev pub min_burn_time : ℕ
min_burn_time = 30

abbrev pub max_burn_time : ℕ
max_burn_time = 300

abbrev pub default_single_mig_profile : ℤ
default_single_mig_profile = negsuc 1

-- The two tests, one after the other.
pub read_burn_time : ℤ → ℤ
read_burn_time burn_time_param =
    let raised =
      if lt_int burn_time_param (pos min_burn_time) then pos min_burn_time else burn_time_param in
    if lt_int (pos max_burn_time) raised then pos max_burn_time else raised

abbrev plus_fifteen : ℤ → ℤ
plus_fifteen (pos n) = pos (n + 15)
plus_fifteen (negsuc n) = if ltb n 15 then pos (14 - n) else negsuc (n - 15)

pub read_delay_between_pods : ℤ → ℤ → ℤ
unfolding read_burn_time
read_delay_between_pods burn_time_param pod_delay =
    let max_delay = plus_fifteen (read_burn_time burn_time_param) in
    if lt_int pod_delay (pos 0)
    then pos 0
    else if lt_int max_delay pod_delay
    then max_delay
    else pod_delay

pub read_single_mig_parameter : ℤ → ℤ
read_single_mig_parameter (negsuc (suc zero)) = negsuc 0
read_single_mig_parameter single_mig_profile = single_mig_profile

-- A burn time is a number of seconds from 30 to 300.
pub read_burn_time_bounds :
    (p : ℤ) → (n : ℕ) × (read_burn_time p ≡ pos n) × (min_burn_time ≤ n) × (n ≤ max_burn_time)
unfolding read_burn_time
read_burn_time_bounds (negsuc n) = (min_burn_time, refl, omega arith, omega arith)
read_burn_time_bounds (pos n) = elim (Bool-cases (ltb n min_burn_time)) [
  | inl low ↦ (min_burn_time, rw low, omega arith, omega arith)
  | inr e ↦ elim (Bool-cases (ltb max_burn_time n)) [
    | inl high ↦ (max_burn_time, rw (e, high), omega arith, omega arith)
    | inr e' ↦ (n, rw (e, e'), ground arith, ground arith)
  ]
]

-- A value in range is kept.
read_burn_time_keeps :
    (n : ℕ) → min_burn_time ≤ n → n ≤ max_burn_time → read_burn_time (pos n) ≡ pos n
unfolding read_burn_time
read_burn_time_keeps n lo hi = ground arith

delay_up_to :
    (most : ℕ) (d : ℤ)
    → (n : ℕ) × ((if lt_int d (pos 0) then pos 0 else if lt_int (pos most) d then pos most else d)
        ≡ pos n)
      × (n ≤ most)
delay_up_to most (negsuc d) = (0, refl, omega arith)
delay_up_to most (pos d) = elim (Bool-cases (ltb most d)) [
  | inl e ↦ (most, ground arith, omega arith)
  | inr e ↦ (d, ground arith, ground arith)
]

-- A delay lies between 0 and the burn time and 15 seconds more, whatever the two parameters are.
pub read_delay_between_pods_bounds :
    (p d : ℤ)
    → (n : ℕ) × (b : ℕ) × (read_burn_time p ≡ pos b)
      × (read_delay_between_pods p d ≡ pos n)
      × (n ≤ b + 15)
unfolding read_delay_between_pods
read_delay_between_pods_bounds p d =
    let (b, at, lo, hi) = read_burn_time_bounds p in
    let (n, value, le) = delay_up_to (b + 15) d in (n, b, at, rw at value, le)
