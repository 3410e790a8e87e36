-- ===== src/Cluster/MacvlanNetwork.antt =====
-- pkg/nvidianetwork/macvlannetwork.go: the methods of MacvlanNetwork.
use nvidia_ci.Common.{Bool, Option, Result}
use nvidia_ci.Text.{Text, codes}
use nvidia_ci.Cluster.Api.{Object, Client, BuilderError}
use nvidia_ci.Cluster.Crd.{
  Kind, CrdBuilder, Items, checked, from_alm_example, builder_from_alm_example, crd_exists,
  crd_pull, crd_delete, crd_create, crd_update, Outcome,
}

abbrev pub macvlan_network_kind : Kind
macvlan_network_kind = record { name = codes "MacvlanNetwork"; crd_name = codes "MacvlanNetwork" }

-- getMacvlanNetworkFromAlmExample; `none` is any of its errors.
abbrev pub macvlan_network_from_alm_example :
    {P : Type 0} → (Text → Option (Items P)) → Text → Option (Object P)
macvlan_network_from_alm_example = from_alm_example macvlan_network_kind

-- NewMacvlanNetworkBuilderFromObjectString
abbrev pub new_macvlan_network_from_string :
    {P : Type 0} → (Text → Option (Items P)) → (Text → Text) → Text → CrdBuilder P
new_macvlan_network_from_string = builder_from_alm_example macvlan_network_kind

-- validate
abbrev pub checked_macvlan_network : {P : Type 0} → CrdBuilder P → CrdBuilder P
checked_macvlan_network = checked macvlan_network_kind

module _ {P : Type 0} (c : Client P) where
  abbrev pub macvlan_network_exists : CrdBuilder P → c.World → Bool × CrdBuilder P
  macvlan_network_exists = crd_exists macvlan_network_kind c

  abbrev pub pull_macvlan_network : P → Text → c.World → Result BuilderError (CrdBuilder P)
  pull_macvlan_network = crd_pull macvlan_network_kind c

  abbrev pub delete_macvlan_network : CrdBuilder P → c.World → Outcome macvlan_network_kind c
  delete_macvlan_network = crd_delete macvlan_network_kind c

  abbrev pub create_macvlan_network : CrdBuilder P → c.World → Outcome macvlan_network_kind c
  create_macvlan_network = crd_create macvlan_network_kind c

  abbrev pub update_macvlan_network : Bool → CrdBuilder P → c.World → Outcome macvlan_network_kind c
  update_macvlan_network = crd_update macvlan_network_kind c
