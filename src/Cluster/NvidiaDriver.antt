-- ===== src/Cluster/NvidiaDriver.antt =====
-- pkg/nvidiagpu/nvidiadriver.go: the methods of NVIDIADriverBuilder.
use nvidia_ci.Common.{Bool, List, ◌++◌, Option, some, Result, ok, err}
use nvidia_ci.Text.{Text, codes}
use nvidia_ci.Cluster.Alm.{AlmError, alm_example_by_kind}
use nvidia_ci.Cluster.Api.{Object, Reply, Client, BuilderError}
use nvidia_ci.Cluster.Crd.{CrdBuilder, checked}
use nvidia_ci.Cluster.Finalized.{
  FinalizedKind, new_finalized, finalized_exists, finalized_pull, delete_finalized,
  DeletedAndWaited, delete_and_wait, create_finalized, Outcome,
}

abbrev pub nvidia_driver_kind : {P : Type 0} → FinalizedKind P
nvidia_driver_kind = record {
  kind = record { name = codes "NVIDIADriver"; crd_name = codes "NVIDIADriver" };
  target = λ d o. o;
  kept = λ d o. o;
}

-- `decode` is Unmarshal into a zero NVIDIADriver: what it has filled in, and its error. `describe` is
-- the text of an error, and `no_driver` the zero NVIDIADriver.
module _ {P Raw : Type 0} (unmarshal : Text → Result Text (List Raw))
    (kind_of : Raw → Result Text Text) (decode : Raw → Object P × Option Text)
    (describe : AlmError → Text) (no_driver : Object P) where
  -- NewNVIDIADriverBuilderFromObjectString with a client
  unfoldable pub new_nvidia_driver_from_string : Text → CrdBuilder P
  unfolding new_finalized alm_example_by_kind
  new_nvidia_driver_from_string alm_example =
      elim (alm_example_by_kind unmarshal kind_of alm_example (codes "NVIDIADriver")) [
        | err e ↦ new_finalized nvidia_driver_kind (some no_driver) (some (describe e))
        | ok raw ↦ new_finalized nvidia_driver_kind (some (decode raw).0) (decode raw).1
      ]

-- ListNVIDIADriversByLabel; the parameter is the client's List.
abbrev pub list_nvidia_drivers_by_label :
    {P S : Type 0} → (S → Result Text (List (Object P))) → S → Result Text (List (Object P))
list_nvidia_drivers_by_label list label_selector = elim (list label_selector) [
  | err e ↦ err (codes "failed to list NVIDIADriver objects: " ++ e)
  | ok items ↦ ok items
]

-- validate
abbrev pub checked_nvidia_driver : {P : Type 0} → CrdBuilder P → CrdBuilder P
checked_nvidia_driver {P} = checked (nvidia_driver_kind {P = P}).kind

module _ {P : Type 0} (c : Client P) (is_not_found : Text → Bool) where
  abbrev pub nvidia_driver_exists : CrdBuilder P → c.World → Bool × CrdBuilder P
  nvidia_driver_exists = finalized_exists nvidia_driver_kind c is_not_found

  abbrev pub pull_nvidia_driver : P → Text → c.World → Result BuilderError (CrdBuilder P)
  pull_nvidia_driver = finalized_pull nvidia_driver_kind c is_not_found

  abbrev pub delete_nvidia_driver :
      CrdBuilder P → c.World → Outcome nvidia_driver_kind c is_not_found
  delete_nvidia_driver = delete_finalized nvidia_driver_kind c is_not_found

  abbrev pub delete_nvidia_driver_and_wait :
      CrdBuilder P → c.World → List (Reply P) → DeletedAndWaited
  delete_nvidia_driver_and_wait = delete_and_wait nvidia_driver_kind c is_not_found

  abbrev pub create_nvidia_driver :
      CrdBuilder P → c.World → Outcome nvidia_driver_kind c is_not_found
  create_nvidia_driver = create_finalized nvidia_driver_kind c is_not_found
