-- ===== src/Cluster/GpuCluster.antt =====
-- pkg/nvidiagpu/gpucluster.go: the methods of GPUClusterBuilder.
use nvidia_ci.Common.{Bool, false, List, [], ◌++◌, none, some, any, Result, ok, err}
use nvidia_ci.Text.{Text, codes, text_eq}
use nvidia_ci.Cluster.Alm.{AlmError, alm_example_by_kind}
use nvidia_ci.Cluster.Api.{Object, Reply, Client, BuilderError}
use nvidia_ci.Cluster.Crd.{CrdBuilder, checked}
use nvidia_ci.Cluster.Finalized.{
  FinalizedKind, new_finalized, finalized_exists, finalized_pull, delete_finalized,
  DeletedAndWaited, delete_and_wait, create_finalized, Outcome,
}

abbrev pub gpu_cluster_kind : {P : Type 0} → FinalizedKind P
gpu_cluster_kind = record {
  kind = record { name = codes "GPUCluster"; crd_name = codes "GPUCluster" };
  target = λ d o. record d { namespace = [] };
  kept = λ d o. d;
}

abbrev pub gpu_cluster_name : Text
gpu_cluster_name = codes "gpu-cluster"

-- `decode` is Unmarshal of the entry's fields, `stamp` sets the API version and the kind, and
-- `describe` is the text of an error.
module _ {P Raw : Type 0} (unmarshal : Text → Result Text (List Raw))
    (kind_of : Raw → Result Text Text) (decode : Raw → Result Text (Object P)) (stamp : P → P)
    (describe : AlmError → Text) where
  abbrev pub singleton : Object P → Object P
  singleton o = record { name = gpu_cluster_name; namespace = []; payload = stamp o.payload }

  abbrev pub from_fields : Result Text (Object P) → CrdBuilder P
  from_fields (err e) =
      new_finalized gpu_cluster_kind none
        (some (codes "failed to unmarshal GPUCluster alm-example: " ++ e))
  from_fields (ok o) = new_finalized gpu_cluster_kind (some (singleton o)) none

  -- NewGPUClusterBuilderFromObjectString with a client
  unfoldable pub new_gpu_cluster_from_string : Text → CrdBuilder P
  unfolding new_finalized alm_example_by_kind
  new_gpu_cluster_from_string alm_example =
      elim (alm_example_by_kind unmarshal kind_of alm_example (codes "GPUCluster")) [
        | err e ↦ new_finalized gpu_cluster_kind none (some (describe e))
        | ok raw ↦ from_fields (decode raw)
      ]

-- IsGPUClusterCRDServed, from the outcome of making the discovery client, the client's answer for the
-- group and version, and the names of its resources.
abbrev pub is_gpu_cluster_crd_served : Result Text (Result Text (List Text)) → Result Text Bool
is_gpu_cluster_crd_served (err e) = err (codes "failed to create discovery client: " ++ e)
is_gpu_cluster_crd_served (ok (err e)) = ok false
is_gpu_cluster_crd_served (ok (ok names)) = ok (any (λ n. text_eq n (codes "gpuclusters")) names)

-- State; `nested_state` is the text at status.state, "" if there is none.
abbrev pub gpu_cluster_state : {P : Type 0} → (P → Text) → CrdBuilder P → Text
gpu_cluster_state nested_state b = elim b.object [ none ↦ [] | some o ↦ nested_state o.payload ]

-- validate
abbrev pub checked_gpu_cluster : {P : Type 0} → CrdBuilder P → CrdBuilder P
checked_gpu_cluster {P} = checked (gpu_cluster_kind {P = P}).kind

module _ {P : Type 0} (c : Client P) (is_not_found : Text → Bool) where
  abbrev pub gpu_cluster_exists : CrdBuilder P → c.World → Bool × CrdBuilder P
  gpu_cluster_exists = finalized_exists gpu_cluster_kind c is_not_found

  abbrev pub pull_gpu_cluster : P → Text → c.World → Result BuilderError (CrdBuilder P)
  pull_gpu_cluster = finalized_pull gpu_cluster_kind c is_not_found

  abbrev pub delete_gpu_cluster : CrdBuilder P → c.World → Outcome gpu_cluster_kind c is_not_found
  delete_gpu_cluster = delete_finalized gpu_cluster_kind c is_not_found

  abbrev pub delete_gpu_cluster_and_wait :
      CrdBuilder P → c.World → List (Reply P) → DeletedAndWaited
  delete_gpu_cluster_and_wait = delete_and_wait gpu_cluster_kind c is_not_found

  abbrev pub create_gpu_cluster : CrdBuilder P → c.World → Outcome gpu_cluster_kind c is_not_found
  create_gpu_cluster = create_finalized gpu_cluster_kind c is_not_found
