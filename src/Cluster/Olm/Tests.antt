-- ===== src/Cluster/Olm/Tests.antt =====
-- A Subscription in a cluster of one object.
use nvidia_ci.Common.{◌≡◌, refl, sym, ap, ◌∙◌, true, [], Option, none, some, Result, ok, ok_inj}
use nvidia_ci.Text.{Text, codes}
use nvidia_ci.Cluster.Api.{Object, Reply, found, not_found, Client, IsClient, Builder}
use nvidia_ci.Cluster.Crd.{checked}
use nvidia_ci.Cluster.Olm.Defs.{new_olm_builder, olm_create, olm_exists, with_change}
use nvidia_ci.Cluster.Olm.Settled.{IsThere, olm_create-IsThere}
use nvidia_ci.Cluster.Olm.Subscription.{
  SubscriptionSpec, subscription_kind, new_subscription, with_channel, create_subscription,
}

abbrev Place : Type 0
Place = Option (Object SubscriptionSpec)

abbrev answer : Place → Reply SubscriptionSpec
answer none = not_found none
answer (some o) = found o

abbrev shelf : Client SubscriptionSpec
shelf = record {
  World = Place;
  get = λ ns n w. answer w;
  create = λ o w. (ok o, some o);
  update = λ o w. (ok o, some o);
  delete = λ ns n w. (none, none);
}

abbrev Call : Type 0
Call = Result Text (Object SubscriptionSpec) × Place

put_there :
    (o o' : Object SubscriptionSpec) (w' : Place)
    → ◌≡◌ {A = Call} (ok o, some o) (ok o', w')
    → answer w' ≡ found o'
put_there o o' w' h =
    ap answer (sym (ap (λ (t : Call). t.1) h)) ∙ ap found (ok_inj (ap (λ (t : Call). t.0) h))

shelf-IsClient : IsClient shelf
shelf-IsClient = record {
  create_found = λ o o' w w' h. put_there o o' w' h;
  update_found = λ o o' w w' h. put_there o o' w' h;
}

abbrev gpu_subscription : Object SubscriptionSpec
gpu_subscription = record {
  name = codes "gpu";
  namespace = codes "ns";
  payload = record {
    catalog_source = codes "certified";
    catalog_source_namespace = codes "marketplace";
    package_name = codes "gpu-operator";
    channel = codes "v24";
    starting_csv = [];
    install_plan_approval = [];
  };
}

abbrev b_gpu : Builder SubscriptionSpec
b_gpu = record {
  definition = some gpu_subscription;
  object = none;
  error_msg = [];
  has_client = true;
}

made :
    with_channel (codes "v24") (
      new_subscription
        (codes "gpu")
        (codes "ns")
        (codes "certified")
        (codes "marketplace")
        (codes "gpu-operator"))
    ≡ b_gpu
unfolding with_change new_subscription new_olm_builder checked
made = refl

creates :
    create_subscription shelf b_gpu none
    ≡ (record b_gpu { object = some gpu_subscription }, none, some gpu_subscription)
unfolding olm_create olm_exists checked
creates = refl

olm_create-IsThere_example :
    IsThere subscription_kind shelf shelf-IsClient gpu_subscription (some gpu_subscription)
olm_create-IsThere_example =
    olm_create-IsThere subscription_kind shelf shelf-IsClient b_gpu
      (record b_gpu { object = some gpu_subscription }) gpu_subscription none
      (some gpu_subscription) (record { defined = refl; has_client = refl; no_error = refl })
      creates
