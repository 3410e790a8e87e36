-- ===== src/Cluster/Crd/Tests.antt =====
-- A NicClusterPolicy that the API server will not update in place, replaced by force.
use nvidia_ci.Common.{
  ◌≡◌, refl, ap, sym, ◌∙◌, true, [], Option, none, some, Result, ok, err, ok_inj, err-ne-ok,
}
use nvidia_ci.Text.{Text, codes}
use nvidia_ci.Cluster.Api.{Object, Reply, found, not_found, Client, IsClient}
use nvidia_ci.Cluster.Crd.{CrdBuilder, checked, crd_update, crd_create, crd_delete, crd_exists}
use nvidia_ci.Cluster.Crd.Ready.{IsReady}
use nvidia_ci.Cluster.Crd.Settled.{IsPresent, crd_update-IsPresent}
use nvidia_ci.Cluster.NicPolicy.{nic_policy_kind, update_nic_policy}

abbrev Place : Type 0
Place = Option (Object Text)

abbrev answer : Place → Reply Text
answer none = not_found none
answer (some o) = found o

abbrev stubborn : Client Text
stubborn = record {
  World = Place;
  get = λ ns n w. answer w;
  create = λ o w. (ok o, some o);
  update = λ o w. (err (codes "conflict"), w);
  delete = λ ns n w. (none, none);
}

abbrev Call : Type 0
Call = Result Text (Object Text) × Place

created_there :
    (o o' : Object Text) (w' : Place)
    → ◌≡◌ {A = Call} (ok o, some o) (ok o', w')
    → answer w' ≡ found o'
created_there o o' w' h =
    ap answer (sym (ap (λ (t : Call). t.1) h)) ∙ ap found (ok_inj (ap (λ (t : Call). t.0) h))

never_updated :
    (o o' : Object Text) (w w' : Place)
    → ◌≡◌ {A = Call} (err (codes "conflict"), w) (ok o', w')
    → answer w' ≡ found o'
never_updated o o' w w' h = absurd (err-ne-ok (ap (λ (t : Call). t.0) h))

stubborn-IsClient : IsClient stubborn
stubborn-IsClient = record {
  create_found = λ o o' w w' h. created_there o o' w' h;
  update_found = λ o o' w w' h. never_updated o o' w w' h;
}

abbrev old_policy : Object Text
old_policy = record { name = codes "p"; namespace = []; payload = codes "old" }

abbrev new_policy : Object Text
new_policy = record { name = codes "p"; namespace = []; payload = codes "new" }

abbrev b_policy : CrdBuilder Text
b_policy = record { definition = some new_policy; object = none; error_msg = []; has_client = true }

abbrev b_replaced : CrdBuilder Text
b_replaced = record b_policy { object = some new_policy }

b_policy-IsReady : IsReady b_policy new_policy
b_policy-IsReady = record {
  defined = refl;
  has_client = refl;
  no_error = refl;
  cluster_scoped = refl;
}

replaces :
    update_nic_policy stubborn true b_policy (some old_policy) ≡ (b_replaced, none, some new_policy)
unfolding crd_update crd_create crd_delete crd_exists checked
replaces = refl

crd_update-IsPresent_example :
    IsPresent nic_policy_kind stubborn stubborn-IsClient new_policy (some new_policy)
crd_update-IsPresent_example =
    crd_update-IsPresent nic_policy_kind stubborn stubborn-IsClient true b_policy b_replaced
      new_policy (some old_policy) (some new_policy) b_policy-IsReady replaces
