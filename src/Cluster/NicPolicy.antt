-- ===== src/Cluster/NicPolicy.antt =====
-- pkg/nvidianetwork/nicclusterpolicy.go: the methods of NicClusterPolicy.
use nvidia_ci.Common.{Bool, Option, Result}
use nvidia_ci.Text.{Text, codes}
use nvidia_ci.Cluster.Api.{Object, Client, BuilderError}
use nvidia_ci.Cluster.Crd.{
  Kind, CrdBuilder, Items, checked, from_alm_example, builder_from_alm_example, crd_exists,
  crd_pull, crd_delete, crd_create, crd_update, Outcome,
}

abbrev pub nic_policy_kind : Kind
nic_policy_kind = record { name = codes "NicClusterPolicy"; crd_name = codes "NicClusterPolicy" }

-- getNicClusterPolicyFromAlmExample; `none` is any of its errors.
abbrev pub nic_policy_from_alm_example :
    {P : Type 0} → (Text → Option (Items P)) → Text → Option (Object P)
nic_policy_from_alm_example = from_alm_example nic_policy_kind

-- NewNicClusterPolicyBuilderFromObjectString
abbrev pub new_nic_policy_from_string :
    {P : Type 0} → (Text → Option (Items P)) → (Text → Text) → Text → CrdBuilder P
new_nic_policy_from_string = builder_from_alm_example nic_policy_kind

-- validate
abbrev pub checked_nic_policy : {P : Type 0} → CrdBuilder P → CrdBuilder P
checked_nic_policy = checked nic_policy_kind

module _ {P : Type 0} (c : Client P) where
  abbrev pub nic_policy_exists : CrdBuilder P → c.World → Bool × CrdBuilder P
  nic_policy_exists = crd_exists nic_policy_kind c

  abbrev pub pull_nic_policy : P → Text → c.World → Result BuilderError (CrdBuilder P)
  pull_nic_policy = crd_pull nic_policy_kind c

  abbrev pub delete_nic_policy : CrdBuilder P → c.World → Outcome nic_policy_kind c
  delete_nic_policy = crd_delete nic_policy_kind c

  abbrev pub create_nic_policy : CrdBuilder P → c.World → Outcome nic_policy_kind c
  create_nic_policy = crd_create nic_policy_kind c

  abbrev pub update_nic_policy : Bool → CrdBuilder P → c.World → Outcome nic_policy_kind c
  update_nic_policy = crd_update nic_policy_kind c
