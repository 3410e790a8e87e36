-- ===== src/Cluster/Finalized/Gone.antt =====
-- About DeleteAndWait: when it reports no error.
use nvidia_ci.Common.{
  ◌≡◌, refl, sym, ap, ◌∙◌, ◌↔◌, List, [], ◌∷◌, ◌++◌, map, Option, none, some, Bool,
}
use nvidia_ci.Text.{Text, is_empty}
use nvidia_ci.Cluster.Api.{Object, Reply, found, not_found, failed, Client, BuilderError}
use nvidia_ci.Cluster.Crd.{CrdBuilder}
use nvidia_ci.Cluster.Gone.{IsGone}
use nvidia_ci.Cluster.Crd.Ready.{IsReady, checked_ready}
use nvidia_ci.Cluster.Finalized.Defs.{
  FinalizedKind, until_gone, delete_finalized, delete_and_wait, Outcome, refused, waited,
  wait_behind, wait_if,
}
use nvidia_ci.Wait.Poll.{Ended, reached, timed_out, stopped, poll}

refused-ne-waited : {e : BuilderError} {t : Ended Text} → refused e ≡ waited t → ⊥
refused-ne-waited h = cc

waited_inj : {s t : Ended Text} → waited s ≡ waited t → s ≡ t
waited_inj h = cc

timed_out-ne-reached : ◌≡◌ {A = Ended Text} timed_out reached → ⊥
timed_out-ne-reached h = cc

stopped-ne-reached : {e : Text} → stopped e ≡ reached → ⊥
stopped-ne-reached h = cc

-- The wait for the end of a deletion.
polls_gone_iff :
    {P : Type 0} (polls : List (Reply P)) → (poll until_gone polls ≡ reached) ↔ IsGone polls
polls_gone_iff {P} polls =
    (there polls, λ g. ap (poll until_gone) g.in_order ∙ back g.present g.beside g.later)
  where
    there : (xs : List (Reply P)) → poll until_gone xs ≡ reached → IsGone xs
    there [] h = absurd (timed_out-ne-reached h)
    there (found o ∷ xs) h =
        let g = there xs h in
        record {
          present = o ∷ g.present;
          beside = g.beside;
          later = g.later;
          in_order = ap (λ t. found o ∷ t) g.in_order;
        }
    there (not_found o ∷ xs) h = record { present = []; beside = o; later = xs; in_order = refl }
    there (failed o e ∷ xs) h = absurd (stopped-ne-reached h)

    back :
        (present : List (Object P)) (o : Option (Object P)) (later : List (Reply P))
        → poll until_gone (map found present ++ not_found o ∷ later) ≡ reached
    back [] o later = refl
    back (p ∷ present) o later = back present o later

module _ {P : Type 0} (f : FinalizedKind P) (c : Client P) (is_not_found : Text → Bool) where
  wait_ready :
      (b : CrdBuilder P) (d : Object P) (w : c.World) (polls : List (Reply P))
      → IsReady b d
      → delete_and_wait f c is_not_found b w polls
        ≡ wait_behind f c is_not_found (delete_finalized f c is_not_found b w) polls
  unfolding delete_and_wait
  wait_ready b d w polls r =
      ap (λ x. wait_if f c is_not_found (is_empty x.error_msg) x w polls)
        (checked_ready f.kind b d r)
      ∙ ap (λ e. wait_if f c is_not_found (is_empty e) b w polls) r.no_error

  behind :
      (o : Outcome f c is_not_found) (polls : List (Reply P))
      → (wait_behind f c is_not_found o polls ≡ waited reached) ↔ ((o.1 ≡ none) × IsGone polls)
  behind (b, some e, w) polls = (λ h. absurd (refused-ne-waited h), λ h. absurd (cc h.0))
  behind (b, none, w) polls = (
    λ h. (refl, (polls_gone_iff polls).0 (waited_inj h)),
    λ h. ap waited ((polls_gone_iff polls).1 h.1),
  )

  -- For a builder that is ready: DeleteAndWait reports no error exactly when its Delete reports none
  -- and, of the polls up to the timeout, one answers that the object is missing and each one before it
  -- has found the object.
  pub delete_and_wait_iff :
      (b : CrdBuilder P) (d : Object P) (w : c.World) (polls : List (Reply P))
      → IsReady b d
      → (delete_and_wait f c is_not_found b w polls ≡ waited reached)
        ↔ (((delete_finalized f c is_not_found b w).1 ≡ none) × IsGone polls)
  delete_and_wait_iff b d w polls r =
      let same = wait_ready b d w polls r in
      let (there, back) = behind (delete_finalized f c is_not_found b w) polls in
      (λ h. there (sym same ∙ h), λ h. same ∙ back h)
