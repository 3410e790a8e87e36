-- ===== src/Cluster/Finalized/Tests.antt =====
-- A GPUCluster whose finalizer is cleared at the second poll.
use nvidia_ci.Common.{◌≡◌, refl, ◌↔◌, Bool, true, false, List, [], ◌∷◌, none, some, ok}
use nvidia_ci.Text.{Text, codes}
use nvidia_ci.Cluster.Api.{Object, Reply, found, not_found, Client}
use nvidia_ci.Cluster.Crd.{CrdBuilder}
use nvidia_ci.Cluster.Finalized.{waited}
use nvidia_ci.Cluster.Finalized.Gone.{delete_and_wait_iff}
use nvidia_ci.Cluster.GpuCluster.{gpu_cluster_kind, delete_gpu_cluster, delete_gpu_cluster_and_wait}
use nvidia_ci.Cluster.Gone.{IsGone}
use nvidia_ci.Wait.Poll.{reached}

abbrev cluster : Object Text
cluster = record { name = codes "gpu-cluster"; namespace = []; payload = [] }

-- Delete marks the object, which is found until the finalizer is cleared.
abbrev finalizing : Client Text
finalizing = record {
  World = Bool;
  get = λ ns n w. found cluster;
  create = λ o w. (ok o, w);
  update = λ o w. (ok o, w);
  delete = λ ns n w. (none, true);
}

abbrev never : Text → Bool
never e = false

abbrev b_cluster : CrdBuilder Text
b_cluster = record { definition = some cluster; object = none; error_msg = []; has_client = true }

abbrev polls : List (Reply Text)
polls = found cluster ∷ not_found none ∷ []

delete_and_wait_iff_example :
    (delete_gpu_cluster_and_wait finalizing never b_cluster false polls ≡ waited reached)
    ↔ (((delete_gpu_cluster finalizing never b_cluster false).1 ≡ none) × IsGone polls)
delete_and_wait_iff_example =
    delete_and_wait_iff gpu_cluster_kind finalizing never b_cluster cluster false polls
      (record { defined = refl; has_client = refl; no_error = refl; cluster_scoped = refl })
