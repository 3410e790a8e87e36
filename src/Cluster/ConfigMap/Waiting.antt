-- ===== src/Cluster/ConfigMap/Waiting.antt =====
-- About WaitUntilDeleted: what the polls answered when the wait ends well.
use nvidia_ci.Common.{◌≡◌, refl, ap, ◌∙◌, ◌↔◌, List, [], ◌∷◌, ◌++◌, Option, none, map}
use nvidia_ci.Text.Labels.{Labels}
use nvidia_ci.Cluster.Api.{Object, Reply, found, not_found, failed}
use nvidia_ci.Cluster.Gone.{IsGone}
use nvidia_ci.Cluster.ConfigMap.Defs.{
  ConfigMapBuilder, gone, poll_until_gone, validate, wait_until_deleted,
}

poll_until_gone-IsGone : (polls : List (Reply Labels)) → poll_until_gone polls ≡ gone → IsGone polls
unfolding poll_until_gone
poll_until_gone-IsGone [] h = absurd (cc h)
poll_until_gone-IsGone (found o ∷ polls) h =
    let g = poll_until_gone-IsGone polls h in
    record {
      present = o ∷ g.present;
      beside = g.beside;
      later = g.later;
      in_order = ap (λ t. found o ∷ t) g.in_order;
    }
poll_until_gone-IsGone (not_found o ∷ polls) h = record {
  present = [];
  beside = o;
  later = polls;
  in_order = refl;
}
poll_until_gone-IsGone (failed o e ∷ polls) h = absurd (cc h)

gone_behind :
    (present : List (Object Labels)) (o : Option (Object Labels)) (later : List (Reply Labels))
    → poll_until_gone (map found present ++ not_found o ∷ later) ≡ gone
unfolding poll_until_gone
gone_behind [] o later = refl
gone_behind (p ∷ present) o later = gone_behind present o later

-- For a valid builder, the wait ends without an error exactly when the polls up to the timeout find
-- the object until one of them answers that it is missing.
pub wait_until_deleted_iff :
    (b : ConfigMapBuilder) (polls : List (Reply Labels))
    → validate b ≡ none
    → (wait_until_deleted b polls ≡ gone) ↔ IsGone polls
unfolding wait_until_deleted
wait_until_deleted_iff b polls v = rw v (
  λ h. poll_until_gone-IsGone polls h,
  λ g. ap poll_until_gone g.in_order ∙ gone_behind g.present g.beside g.later,
)
