-- ===== src/Wait/Slices/Match.antt =====
-- About GPUResourceSliceUUIDsMatch: the polls at which it ends well.
use nvidia_ci.Common.{
  ◌≡◌, refl, sym, ap, ◌∙◌, ◌↔◌, ◌⊎◌, inl, inr, true, Bool-cases, List, [], ◌∷◌, Has, if◌then◌else◌,
  subst, Result, ok, err, ok_inj, err-ne-ok, false-ne-true,
}
use nvidia_ci.Text.{Text}
use nvidia_ci.Wait.Poll.{Step, go_on, done, Ended, reached, timed_out, poll}
use nvidia_ci.Wait.Slices.Defs.{
  ResourceSlice, Uuids, SliceError, gpu_resource_slice_uuids, maps_equal, match_step,
  gpu_resource_slice_uuids_match,
}

abbrev pub Answer : Type 0
Answer = Result Text (List ResourceSlice)

module _ (expected : Uuids) where
  -- The answer's slices publish the expected UUIDs.
  abbrev pub IsMatching : Answer → Type 0
  IsMatching answer =
      (m : Uuids) × (gpu_resource_slice_uuids answer ≡ ok m) × (maps_equal m expected ≡ true)

  abbrev step : Answer → Step Text
  step answer = match_step expected (gpu_resource_slice_uuids answer)

  step_cases :
      (answer : Answer)
      → ((step answer ≡ done) × IsMatching answer)
        ⊎ ((step answer ≡ go_on) × (IsMatching answer → ⊥))
  step_cases answer = go (gpu_resource_slice_uuids answer) refl
    where
      go :
          (r : Result SliceError Uuids)
          → gpu_resource_slice_uuids answer ≡ r
          → ((step answer ≡ done) × IsMatching answer)
            ⊎ ((step answer ≡ go_on) × (IsMatching answer → ⊥))
      go (err e) at = inr (ap (match_step expected) at, λ (m, at', same). err-ne-ok (sym at ∙ at'))
      go (ok m) at = elim (Bool-cases (maps_equal m expected)) [
        | inl same ↦
            inl (
              ap (match_step expected) at ∙ ap (λ t. if t then done else go_on) same,
              (m, at, same),
            )
        | inr other ↦ inr (
          ap (match_step expected) at ∙ ap (λ t. if t then done else go_on) other,
          λ (m', at', same).
              false-ne-true
                (sym other ∙ ap (λ x. maps_equal x expected) (ok_inj (sym at ∙ at')) ∙ same),
        )
      ]

  timed_out-ne-reached : ◌≡◌ {A = Ended Text} timed_out reached → ⊥
  timed_out-ne-reached h = cc

  -- The wait reports no error exactly when, of the client's answers up to the timeout, one lists slices
  -- whose reported UUIDs are the expected ones; failed listings and incomplete pools at other polls
  -- make no difference.
  pub gpu_resource_slice_uuids_match_iff :
      (polls : List Answer)
      → (gpu_resource_slice_uuids_match expected polls ≡ reached)
        ↔ ((answer : Answer) × Has answer polls × IsMatching answer)
  unfolding gpu_resource_slice_uuids_match
  gpu_resource_slice_uuids_match_iff polls = (there polls, λ (a, has, m). back polls a has m)
    where
      there :
          (xs : List Answer)
          → poll step xs ≡ reached
          → (answer : Answer) × Has answer xs × IsMatching answer
      there [] h = absurd (timed_out-ne-reached h)
      there (a ∷ xs) h = elim (step_cases a) [
        | inl (e, m) ↦ (a, inl refl, m)
        | inr (e, no_match) ↦ let (b, has, m) = there xs (rw e at h) in (b, inr has, m)
      ]

      back : (xs : List Answer) (a : Answer) → Has a xs → IsMatching a → poll step xs ≡ reached
      back [] a has m = absurd has
      back (x ∷ xs) a (inl same) m = elim (step_cases x) [
        | inl (e, m') ↦ rw e
        | inr (e, no_match) ↦ absurd (no_match (subst IsMatching same m))
      ]
      back (x ∷ xs) a (inr has) m = elim (step_cases x) [
        | inl (e, m') ↦ rw e
        | inr (e, no_match) ↦ rw e (back xs a has m)
      ]
