-- ===== src/Mig/Profiles.antt =====
-- MIGProfileInfo of pkg/mig/migtypes.go, and UpdateMIGCapabilities and SelectMigProfile of
-- pkg/mig/mig.go.
use nvidia_ci.Common.{
  ℕ, zero, suc, ◌-◌, ◌<◌, ◌≡◌, refl, List, [], ◌∷◌, ◌++◌, Option, none, some, arith, if◌then◌else◌,
  ltb, get_or, get_elem?,
}
use nvidia_ci.Text.{Text, codes, text_eq}
use nvidia_ci.Text.Number.{ℤ, pos, negsuc}
use nvidia_ci.Mig.Slices.{add_int}

pub record MigProfileInfo : Type 0 where
  pub gpu_id : ℕ
  pub mig_type : Text
  pub mig_name : Text
  pub mig_id : ℕ
  pub available : ℕ
  pub total : ℕ
  pub memory : Text
  pub p2p : Text
  pub sm : ℕ
  pub dec : ℕ
  pub enc : ℕ
  pub ce : ℕ
  pub jpeg : ℕ
  pub ofa : ℕ
  pub flavor : Text
  pub mixed_cnt : ℤ
  pub slice_usage : ℕ
  pub mem_usage : ℕ

-- The loop: each profile gets the count at its index, 0 where there is none.
unfoldable pub update_profiles : List MigProfileInfo → List ℤ → List MigProfileInfo
update_profiles [] counts = []
update_profiles (p ∷ profiles) [] = record p { mixed_cnt = pos 0 } ∷ update_profiles profiles []
update_profiles (p ∷ profiles) (c ∷ counts) =
    record p { mixed_cnt = c } ∷ update_profiles profiles counts

-- SumOfMixedCnt behind the loop, from a sum so far; the other totals are only logged.
unfoldable pub sum_of_mixed_cnt : List MigProfileInfo → List ℤ → ℤ → ℤ
sum_of_mixed_cnt [] counts sum = sum
sum_of_mixed_cnt (p ∷ profiles) [] sum = sum_of_mixed_cnt profiles [] (add_int sum (pos 0))
sum_of_mixed_cnt (p ∷ profiles) (c ∷ counts) sum = sum_of_mixed_cnt profiles counts (add_int sum c)

-- The profiles are updated in place; the sum is returned.
unfoldable pub update_mig_capabilities : List MigProfileInfo → List ℤ → List MigProfileInfo × ℤ
unfolding update_profiles sum_of_mixed_cnt
update_mig_capabilities profiles counts =
    (update_profiles profiles counts, sum_of_mixed_cnt profiles counts (pos 0))

-- The index of SelectMigProfile; `pick` stands for rand.Intn.
unfoldable pub select_mig_index : (ℕ → ℕ) → ℤ → ℕ → ℕ
select_mig_index pick (negsuc i) n = pick n
select_mig_index pick (pos i) n = if ltb i n then i else n - 1

abbrev pub mig_strategy_single : Text
mig_strategy_single = codes "single"

abbrev pub mig_strategy_mixed : Text
mig_strategy_mixed = codes "mixed"

-- The strategy label, the configuration label and the returned flavor of SetMIGLabelsOnNodes.
pub record MigLabels : Type 0 where
  pub strategy : Text
  pub config : Text
  pub use_profile : Text

-- The switch of SetMIGLabelsOnNodes, on the chosen entry.
unfoldable pub mig_labels : MigProfileInfo → Text → MigLabels
mig_labels entry strategy =
    if text_eq strategy mig_strategy_single
    then record {
      strategy = strategy;
      config = codes "all-" ++ entry.mig_name;
      use_profile = entry.flavor;
    }
    else if text_eq strategy mig_strategy_mixed
    then record {
      strategy = strategy;
      config = codes "all-balanced";
      use_profile = mig_strategy_mixed;
    }
    else record {
      strategy = mig_strategy_mixed;
      config = strategy;
      use_profile = mig_strategy_mixed;
    }

-- The sum of the profiles' counts in int64, from a sum so far.
abbrev pub sum_cnt : List MigProfileInfo → ℤ → ℤ
sum_cnt [] sum = sum
sum_cnt (p ∷ ps) sum = sum_cnt ps (add_int sum p.mixed_cnt)

sum_of_mixed_cnt-eq :
    (ps : List MigProfileInfo) (cs : List ℤ) (sum : ℤ)
    → sum_of_mixed_cnt ps cs sum ≡ sum_cnt (update_profiles ps cs) sum
unfolding sum_of_mixed_cnt update_profiles
sum_of_mixed_cnt-eq [] cs sum = refl
sum_of_mixed_cnt-eq (p ∷ ps) [] sum = sum_of_mixed_cnt-eq ps [] (add_int sum (pos 0))
sum_of_mixed_cnt-eq (p ∷ ps) (c ∷ cs) sum = sum_of_mixed_cnt-eq ps cs (add_int sum c)

-- The profile as the update leaves it.
abbrev pub with_count : List ℤ → ℕ → Option MigProfileInfo → Option MigProfileInfo
with_count counts i none = none
with_count counts i (some p) = some (record p { mixed_cnt = get_or counts i (pos 0) })

update_profiles-at :
    (ps : List MigProfileInfo) (cs : List ℤ) (i : ℕ)
    → get_elem? (update_profiles ps cs) i ≡ with_count cs i (get_elem? ps i)
unfolding update_profiles
update_profiles-at [] cs i = refl
update_profiles-at (p ∷ ps) [] zero = refl
update_profiles-at (p ∷ ps) [] (suc i) = update_profiles-at ps [] i
update_profiles-at (p ∷ ps) (c ∷ cs) zero = refl
update_profiles-at (p ∷ ps) (c ∷ cs) (suc i) = update_profiles-at ps cs i

-- At each index the profile keeps its other fields and has the count given for that index, 0 where
-- none is given, and the returned sum is the sum in int64 of the profiles' new counts.
pub update_mig_capabilities_lem :
    (ps : List MigProfileInfo) (cs : List ℤ)
    → ((i : ℕ) → get_elem? (update_mig_capabilities ps cs).0 i ≡ with_count cs i (get_elem? ps i))
      × ((update_mig_capabilities ps cs).1 ≡ sum_cnt (update_mig_capabilities ps cs).0 (pos 0))
unfolding update_mig_capabilities
update_mig_capabilities_lem ps cs = (update_profiles-at ps cs, sum_of_mixed_cnt-eq ps cs (pos 0))

-- For a list of profiles that is not empty, the chosen index is one of the list's, if the random
-- choice is.
pub select_mig_index_bounds :
    (pick : ℕ → ℕ) (wanted : ℤ) (n : ℕ)
    → 0 < n
    → ((m : ℕ) → 0 < m → pick m < m)
    → select_mig_index pick wanted n < n
unfolding select_mig_index
select_mig_index_bounds pick (negsuc i) n h law = law n h
select_mig_index_bounds pick (pos i) n h law = ground arith
