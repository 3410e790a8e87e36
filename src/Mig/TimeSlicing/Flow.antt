-- ===== src/Mig/TimeSlicing/Flow.antt =====
-- CreateTimeSlicingConfig and removeTimeSlicingConfig, with the node labels that they write.
use nvidia_ci.Common.{
  Bool, true, false, List, [], ◌∷◌, Option, none, some, if◌then◌else◌, is_some, Result, ok, err,
}
use nvidia_ci.Text.{Text, is_empty}
use nvidia_ci.Text.Labels.{delete_key, Labels, lookup, insert, label}
use nvidia_ci.Text.Number.{ℤ, pos, lt_int}
use nvidia_ci.Mig.Nodes.{gpu_product_label_key, base_gpu_product_name, first_gpu_product}
use nvidia_ci.Wait.Poll.{Ended, reached, timed_out, stopped}
use nvidia_ci.Cluster.Crd.{CrdBuilder}
use nvidia_ci.Wait.Ready.{Failure, cluster_policy_ready}
use nvidia_ci.Mig.TimeSlicing.Store.{
  Spec, GpuNode, World, Faults, tick, refused, not_in_time, call_failed, Action, Outcome, ◌>>=◌,
  ◌>>◌, pure, raise, policy_name, put_node, policy_client,
}
use nvidia_ci.Mig.TimeSlicing.Defs.{
  device_plugin_config_label, time_slicing_config_map_name, Snapshot, pull_policy, change_policy,
  update_config_map, restore_config_map,
}

-- The GPU feature discovery is turned on.
abbrev pub gfd_on : Spec → Spec
gfd_on spec = record spec { gfd_enabled = some true }

abbrev pub config_on : Text → Spec → Spec
config_on product spec = record spec {
  device_plugin_config =
      some (record { name = time_slicing_config_map_name; default_config = product });
}

-- The configuration and the feature discovery of the snapshot.
abbrev pub config_back : Snapshot → Spec → Spec
config_back snap spec = record spec {
  device_plugin_config = if snap.had_device_plugin_config then snap.device_plugin_config else none;
  gfd_enabled = snap.gfd_enabled;
}

-- waitForGPUProductLabel; the polls are the answers to the listing before the deadline.
unfoldable pub wait_for_gpu_product_label : List (Result Text (List Labels)) → Option Text
unfolding first_gpu_product
wait_for_gpu_product_label [] = none
wait_for_gpu_product_label (answer ∷ polls) =
    let rest = wait_for_gpu_product_label polls in
    elim answer [
      | err e ↦ rest
      | ok nodes ↦
          if is_empty (first_gpu_product nodes) then rest else some (first_gpu_product nodes)
    ]

-- The product in use: the given one, or the one that the nodes come to show.
abbrev pub found_product : Option Text → Action Text
found_product none w = (err not_in_time, w)
found_product (some p) w = (ok (base_gpu_product_name p), w)

abbrev pub product_of : Text → List (Result Text (List Labels)) → Action Text
product_of gpu_product polls w =
    if is_empty (base_gpu_product_name gpu_product)
    then found_product (wait_for_gpu_product_label polls) w
    else (ok (base_gpu_product_name gpu_product), w)

abbrev pub keep : (GpuNode → Bool) → List GpuNode → List GpuNode
keep selected [] = []
keep selected (n ∷ nodes) = let rest = keep selected nodes in if selected n then n ∷ rest else rest

-- The configuration's label that a node gets, if it does.
abbrev pub config_key : Labels → GpuNode → Option Text
config_key cm_data n =
    if is_empty (label gpu_product_label_key n.labels)
    then none
    else if is_some (lookup (base_gpu_product_name (label gpu_product_label_key n.labels)) cm_data)
    then some (base_gpu_product_name (label gpu_product_label_key n.labels))
    else none

-- A writing call, by its fault: the world that it makes, or the one before it.
abbrev pub attempt : Option Text → World → World → Outcome Unit
attempt (some e) w good = (err (call_failed e), tick w)
attempt none w good = (ok tt, tick good)

module _ (reads writes : Faults) (selected : GpuNode → Bool) where
  -- nodes.List with the selector
  abbrev pub list_nodes : Action (List GpuNode)
  list_nodes w = elim (reads w.calls) [
    | some e ↦ (err (call_failed e), w)
    | none ↦ (ok (keep selected w.nodes), w)
  ]

  -- Update of a listed node
  abbrev pub update_node : GpuNode → Action Unit
  update_node n w = attempt (writes w.calls) w (record w { nodes = put_node n w.nodes })

  abbrev pub label_node : Option Text → GpuNode → Action Unit → Action Unit
  label_node none n rest = rest
  label_node (some key) n rest =
      update_node (record n { labels = insert device_plugin_config_label key n.labels }) >> rest

  abbrev pub unlabel_node : Option Text → GpuNode → Action Unit → Action Unit
  unlabel_node none n rest = rest
  unlabel_node (some value) n rest =
      update_node (record n { labels = delete_key device_plugin_config_label n.labels }) >> rest

  -- The loop of applyDevicePluginConfigNodeLabels.
  unfoldable pub label_nodes : Labels → List GpuNode → Action Unit
  unfolding insert lookup label base_gpu_product_name
  label_nodes cm_data [] w = (ok tt, w)
  label_nodes cm_data (n ∷ nodes) w =
      label_node (config_key cm_data n) n (label_nodes cm_data nodes) w

  -- applyDevicePluginConfigNodeLabels
  abbrev pub apply_node_labels : Labels → Action Unit
  apply_node_labels cm_data = list_nodes >>= λ nodes. label_nodes cm_data nodes

  -- The loop of removeDevicePluginConfigNodeLabels.
  unfoldable pub unlabel_nodes : List GpuNode → Action Unit
  unfolding lookup delete_key
  unlabel_nodes [] w = (ok tt, w)
  unlabel_nodes (n ∷ nodes) w =
      unlabel_node (lookup device_plugin_config_label n.labels) n (unlabel_nodes nodes) w

  -- removeDevicePluginConfigNodeLabels
  abbrev pub remove_node_labels : Action Unit
  remove_node_labels = list_nodes >>= λ nodes. unlabel_nodes nodes

  -- The part of CreateTimeSlicingConfig behind the choice of the product.
  abbrev pub configure : (ℤ → Text) → ℤ → Text → Action Labels
  configure print replicas product =
      if is_empty product
      then raise refused
      else update_config_map reads writes print product replicas >>= λ out.
          apply_node_labels out
          >> (pull_policy reads writes >>= λ b.
              change_policy reads writes true (config_on product) b >> pure out)

  -- CreateTimeSlicingConfig with a selector that is not empty
  unfoldable pub create_time_slicing_config :
      (ℤ → Text) → List (Result Text (List Labels)) → Text → ℤ → Action Labels
  unfolding pull_policy update_config_map label_nodes wait_for_gpu_product_label
      base_gpu_product_name
  create_time_slicing_config print polls gpu_product replicas =
      if lt_int (pos 0) replicas
      then pull_policy reads writes >>= (λ b.
        change_policy reads writes true gfd_on b
        >> (product_of gpu_product polls >>= λ product. configure print replicas product))
      else raise refused

  -- restartGPUOperatorDevicePluginDaemonsets on one of the daemon sets; one that is missing is skipped.
  abbrev pub restart_one : Action Unit
  restart_one w = attempt (writes w.calls) w w

  abbrev pub restart_daemon_sets : Action Unit
  restart_daemon_sets = restart_one >> restart_one

  abbrev pub ended : Ended Failure → Action Unit
  ended reached w = (ok tt, w)
  ended timed_out w = (err not_in_time, w)
  ended (stopped e) w = (err not_in_time, w)

  abbrev pub await_ready : Bool → List World → Action Unit
  await_ready false polls w = (ok tt, w)
  await_ready true polls w =
      ended
        (cluster_policy_ready (λ (s : Spec). s.state) (policy_client reads writes)
          record { device_plugin_config = none; gfd_enabled = none; state = []; rest = [] }
          policy_name polls)
        w

  abbrev pub clean_up : Snapshot → Action Unit
  clean_up snap = restore_config_map reads writes snap >> restart_daemon_sets

  -- The ClusterPolicy is skipped if its pull fails.
  abbrev pub put_back : Snapshot → Bool → List World → Outcome (CrdBuilder Spec) → Outcome Unit
  put_back snap wait_for_ready polls (err e, w) = clean_up snap w
  put_back snap wait_for_ready polls (ok b, w) =
      (change_policy reads writes false (config_back snap) b
          >> (clean_up snap >> await_ready wait_for_ready polls))
        w

  -- removeTimeSlicingConfig with a snapshot that is not nil
  unfoldable pub remove_time_slicing_config : Snapshot → Bool → List World → Action Unit
  unfolding pull_policy restore_config_map unlabel_nodes cluster_policy_ready
  remove_time_slicing_config snap wait_for_ready polls =
      remove_node_labels >> λ w. put_back snap wait_for_ready polls (pull_policy reads writes w)
