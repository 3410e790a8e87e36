-- ===== src/Cluster/IpoibNetwork.antt =====
-- pkg/nvidianetwork/ipoibnetwork.go: the methods of IPoIBNetwork.
use nvidia_ci.Common.{Bool, Option, Result}
use nvidia_ci.Text.{Text, codes}
use nvidia_ci.Cluster.Api.{Object, Client, BuilderError}
use nvidia_ci.Cluster.Crd.{
  Kind, CrdBuilder, Items, checked, from_alm_example, builder_from_alm_example, crd_exists,
  crd_pull, crd_delete, crd_create, crd_update, Outcome,
}

abbrev pub ipoib_network_kind : Kind
ipoib_network_kind = record { name = codes "IPoIBNetwork"; crd_name = codes "IPoIBNetwork" }

-- getIPoIBNetworkFromAlmExample; `none` is any of its errors.
abbrev pub ipoib_network_from_alm_example :
    {P : Type 0} → (Text → Option (Items P)) → Text → Option (Object P)
ipoib_network_from_alm_example = from_alm_example ipoib_network_kind

-- NewIPoIBNetworkBuilderFromObjectString
abbrev pub new_ipoib_network_from_string :
    {P : Type 0} → (Text → Option (Items P)) → (Text → Text) → Text → CrdBuilder P
new_ipoib_network_from_string = builder_from_alm_example ipoib_network_kind

-- validate
abbrev pub checked_ipoib_network : {P : Type 0} → CrdBuilder P → CrdBuilder P
checked_ipoib_network = checked ipoib_network_kind

module _ {P : Type 0} (c : Client P) where
  abbrev pub ipoib_network_exists : CrdBuilder P → c.World → Bool × CrdBuilder P
  ipoib_network_exists = crd_exists ipoib_network_kind c

  abbrev pub pull_ipoib_network : P → Text → c.World → Result BuilderError (CrdBuilder P)
  pull_ipoib_network = crd_pull ipoib_network_kind c

  abbrev pub delete_ipoib_network : CrdBuilder P → c.World → Outcome ipoib_network_kind c
  delete_ipoib_network = crd_delete ipoib_network_kind c

  abbrev pub create_ipoib_network : CrdBuilder P → c.World → Outcome ipoib_network_kind c
  create_ipoib_network = crd_create ipoib_network_kind c

  abbrev pub update_ipoib_network : Bool → CrdBuilder P → c.World → Outcome ipoib_network_kind c
  update_ipoib_network = crd_update ipoib_network_kind c
