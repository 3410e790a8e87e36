-- ===== src/Cluster/Tests.antt =====
-- A cluster that holds one object, and the builders against it.
use nvidia_ci.Common.{
  ◌≡◌, refl, ap, ◌↔◌, true, false, [], Option, none, some, Result, ok, ok_inj, subst,
}
use nvidia_ci.Text.{Text, codes, is_empty}
use nvidia_ci.Text.Labels.{Labels}
use nvidia_ci.Cluster.Api.{Object, Reply, found, not_found, failed, Client, IsClient, Builder}
use nvidia_ci.Cluster.ConfigMap.{
  ConfigMapBuilder, config_map_of, new_builder, validate, pull, create_config_map,
  wait_until_deleted,
}
use nvidia_ci.Cluster.ConfigMap.Behaviour.{
  IsValid, IsSettled, create_config_map-IsSettled, create_config_map-again, new_builder_iff,
}
use nvidia_ci.Common.{List, ◌∷◌}
use nvidia_ci.Cluster.ConfigMap.{gone}
use nvidia_ci.Cluster.ConfigMap.Waiting.{wait_until_deleted_iff}
use nvidia_ci.Cluster.Gone.{IsGone}
use nvidia_ci.Cluster.NicPolicy.{nic_policy_kind, pull_nic_policy}
use nvidia_ci.Cluster.Crd.Behaviour.{IsUseless, crd_pull-failed}

abbrev answer_of : {P : Type 0} → Option (Object P) → Reply P
answer_of none = not_found none
answer_of (some o) = found o

-- The world is the one object that is there, or none; Get finds it under every name.
abbrev one_object : (P : Type 0) → Client P
one_object P = record {
  World = Option (Object P);
  get = λ ns n w. answer_of w;
  create = λ o w. (ok o, some o);
  update = λ o w. (ok o, some o);
  delete = λ ns n w. (none, none);
}

-- A cluster of which every Get times out.
abbrev down : (P : Type 0) → Client P
down P = record {
  World = Option (Object P);
  get = λ ns n w. failed none (codes "timeout");
  create = λ o w. (ok o, some o);
  update = λ o w. (ok o, some o);
  delete = λ ns n w. (none, none);
}

written :
    {P : Type 0} (o o' : Object P) (w' : Option (Object P))
    → ◌≡◌ {A = Result Text (Object P) × Option (Object P)} (ok o, some o) (ok o', w')
    → answer_of w' ≡ found o'
written {P} o o' w' h =
    let same : ◌≡◌ {A = Option (Object P)} (some o) w' =
      ap (λ (t : Result Text (Object P) × Option (Object P)). t.1) h in
    let returned : o ≡ o' =
      ok_inj (ap (λ (t : Result Text (Object P) × Option (Object P)). t.0) h) in
    subst (λ x. answer_of x ≡ found o') same (ap found returned)

one_object-IsClient : (P : Type 0) → IsClient (one_object P)
one_object-IsClient P = record {
  create_found = λ o o' w w' h. written o o' w' h;
  update_found = λ o o' w w' h. written o o' w' h;
}

abbrev b_new : ConfigMapBuilder
b_new = record {
  definition = some (config_map_of (codes "m") (codes "ns"));
  object = none;
  error_msg = [];
  has_client = true;
}

abbrev b_created : ConfigMapBuilder
b_created = record b_new { object = some (config_map_of (codes "m") (codes "ns")) }

b_new-IsValid : IsValid b_new (config_map_of (codes "m") (codes "ns"))
unfolding validate
b_new-IsValid = record { valid = refl; defined = refl }

runs :
    create_config_map (one_object Labels) b_new none
    ≡ (b_created, none, some (config_map_of (codes "m") (codes "ns")))
unfolding create_config_map
runs = refl

create_config_map-IsSettled_example :
    IsSettled
      (one_object Labels)
      b_new
      (config_map_of (codes "m") (codes "ns"))
      b_new-IsValid
      none
      (some (config_map_of (codes "m") (codes "ns")))
create_config_map-IsSettled_example =
    create_config_map-IsSettled (one_object Labels) b_new (config_map_of (codes "m") (codes "ns"))
      b_new-IsValid (one_object-IsClient Labels) b_created none
      (some (config_map_of (codes "m") (codes "ns"))) runs

create_config_map-again_example :
    ((create_config_map (one_object Labels) b_new (some (config_map_of (codes "m") (codes "ns")))).1
      ≡ none)
    × ((create_config_map
          (one_object Labels)
          b_new
          (some (config_map_of (codes "m") (codes "ns")))).2
        ≡ some (config_map_of (codes "m") (codes "ns")))
create_config_map-again_example =
    create_config_map-again (one_object Labels) b_new (config_map_of (codes "m") (codes "ns"))
      b_new-IsValid (one_object-IsClient Labels) b_created none
      (some (config_map_of (codes "m") (codes "ns"))) runs

new_builder_iff_example :
    (validate (new_builder (codes "m") (codes "ns")) ≡ none)
    ↔ ((is_empty (codes "m") ≡ false) × (is_empty (codes "ns") ≡ false))
new_builder_iff_example = new_builder_iff (codes "m") (codes "ns")

pulls :
    pull
      (one_object Labels)
      (codes "m")
      (codes "ns")
      (some (config_map_of (codes "m") (codes "ns")))
    ≡ ok (record b_created { definition = some (config_map_of (codes "m") (codes "ns")) })
unfolding pull
pulls = refl

crd_pull-failed_example :
    (b : Builder Text) × (pull_nic_policy (down Text) [] (codes "p") none ≡ ok b)
    × (b.definition ≡ none)
    × IsUseless nic_policy_kind (down Text) b
crd_pull-failed_example =
    crd_pull-failed nic_policy_kind (down Text) [] (codes "p") none none (codes "timeout") refl refl

b_new-valid : validate b_new ≡ none
unfolding validate
b_new-valid = refl

abbrev polls : List (Reply Labels)
polls = found (config_map_of (codes "m") (codes "ns")) ∷ not_found none ∷ []

wait_until_deleted_iff_example : (wait_until_deleted b_new polls ≡ gone) ↔ IsGone polls
wait_until_deleted_iff_example = wait_until_deleted_iff b_new polls b_new-valid
