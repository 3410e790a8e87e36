-- ===== src/Wait/Ready.antt =====
-- internal/wait/wait.go and networkwait.go: waiting until a custom resource is in a state. The polls
-- are the worlds in which the condition pulls the resource, and `state` is its Status.State.
pub mod Policy
pub mod Network
use nvidia_ci.Common.{Bool, List, [], Option, none, some, if◌then◌else◌, Result, ok, err}
use nvidia_ci.Text.{Text, codes, text_eq}
use nvidia_ci.Cluster.Api.{Object, Client, BuilderError}
use nvidia_ci.Cluster.Crd.{CrdBuilder}
use nvidia_ci.Cluster.ClusterPolicy.{pull_cluster_policy}
use nvidia_ci.Cluster.NvidiaDriver.{pull_nvidia_driver}
use nvidia_ci.Cluster.GpuCluster.{pull_gpu_cluster, gpu_cluster_state}
use nvidia_ci.Cluster.NicPolicy.{pull_nic_policy}
use nvidia_ci.Cluster.MacvlanNetwork.{pull_macvlan_network}
use nvidia_ci.Cluster.IpoibNetwork.{pull_ipoib_network}
use nvidia_ci.Wait.Poll.{Step, go_on, done, stop, Ended, poll}

abbrev pub state_ready : Text
state_ready = codes "ready"

abbrev pub state_not_ready : Text
state_not_ready = codes "notReady"

-- How a condition fails: with the error of the pull, or in a read through nil.
pub data Failure : Type 0 where
  pull_error : BuilderError → Failure
  nil_pointer : Failure

abbrev pub done_if : Bool → Step Failure
done_if answer = if answer then done else go_on

module _ {P : Type 0} (state : P → Text) where
  abbrev pub object_in_state : Text → Object P → Step Failure
  object_in_state wanted o = done_if (text_eq (state o.payload) wanted)

  -- The conditions that ask for the object first.
  abbrev pub in_state : Text → Result BuilderError (CrdBuilder P) → Step Failure
  in_state wanted (err e) = stop (pull_error e)
  in_state wanted (ok b) = elim b.object [ none ↦ go_on | some o ↦ object_in_state wanted o ]

  -- The conditions of networkwait.go, which read the object's state unasked.
  abbrev pub network_in_state : Text → Result BuilderError (CrdBuilder P) → Step Failure
  network_in_state wanted (err e) = stop (pull_error e)
  network_in_state wanted (ok b) = elim b.object [
    | none ↦ stop nil_pointer
    | some o ↦ object_in_state wanted o
  ]

  -- State gives "" for a missing object.
  abbrev pub gpu_cluster_in_state : Text → Result BuilderError (CrdBuilder P) → Step Failure
  gpu_cluster_in_state wanted (err e) = stop (pull_error e)
  gpu_cluster_in_state wanted (ok b) = done_if (text_eq (gpu_cluster_state state b) wanted)

  module _ (c : Client P) (no_spec : P) (name : Text) where
    -- ClusterPolicyReady
    unfoldable pub cluster_policy_ready : List c.World → Ended Failure
    unfolding pull_cluster_policy
    cluster_policy_ready polls =
        poll (λ w. in_state state_ready (pull_cluster_policy c no_spec name w)) polls

    -- ClusterPolicyNotReady
    unfoldable pub cluster_policy_not_ready : List c.World → Ended Failure
    unfolding pull_cluster_policy
    cluster_policy_not_ready polls =
        poll (λ w. in_state state_not_ready (pull_cluster_policy c no_spec name w)) polls

    -- NVIDIADriverReady
    unfoldable pub nvidia_driver_ready : (Text → Bool) → List c.World → Ended Failure
    nvidia_driver_ready is_not_found polls =
        poll (λ w. in_state state_ready (pull_nvidia_driver c is_not_found no_spec name w)) polls

    -- GPUClusterReady
    unfoldable pub gpu_cluster_ready : (Text → Bool) → List c.World → Ended Failure
    gpu_cluster_ready is_not_found polls =
        poll
          (λ w. gpu_cluster_in_state state_ready (pull_gpu_cluster c is_not_found no_spec name w))
          polls

    -- NicClusterPolicyReady, MacvlanNetworkReady and IPoIBNetworkReady
    unfoldable pub nic_cluster_policy_ready : List c.World → Ended Failure
    nic_cluster_policy_ready polls =
        poll (λ w. network_in_state state_ready (pull_nic_policy c no_spec name w)) polls

    unfoldable pub macvlan_network_ready : List c.World → Ended Failure
    macvlan_network_ready polls =
        poll (λ w. network_in_state state_ready (pull_macvlan_network c no_spec name w)) polls

    unfoldable pub ipoib_network_ready : List c.World → Ended Failure
    ipoib_network_ready polls =
        poll (λ w. network_in_state state_ready (pull_ipoib_network c no_spec name w)) polls
