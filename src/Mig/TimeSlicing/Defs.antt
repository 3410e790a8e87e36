-- ===== src/Mig/TimeSlicing/Defs.antt =====
-- The operations of time slicing over the store. The number of replicas is printed by `print`, the
-- nodes of the selector pass `selected`, and the daemon sets there are pass `is_daemon_set`.
use nvidia_ci.Common.{
  Bool, true, false, not, ◌&&◌, ◌||◌, [], ◌∷◌, ◌++◌, Option, none, some, if◌then◌else◌, is_some,
  Result, ok, err,
}
use nvidia_ci.Text.{Text, codes, is_empty, has_suffix}
use nvidia_ci.Text.Labels.{delete_key, Labels, lookup, insert}
use nvidia_ci.Text.Number.{ℤ, pos, lt_int}
use nvidia_ci.Mig.Nodes.{gpu_product_shared_suffix, base_gpu_product_name}
use nvidia_ci.Cluster.Api.{Object, BuilderError}
use nvidia_ci.Cluster.Crd.{CrdBuilder}
use nvidia_ci.Cluster.ClusterPolicy.{pull_cluster_policy, update_cluster_policy}
use nvidia_ci.Mig.TimeSlicing.Store.{
  PluginConfig, Spec, World, Faults, nil_pointer, call_failed, builder_failed, Action, Outcome,
  ◌>>=◌, policy_name, CallError, already_exists, missing, other, read_config_map, add_config_map,
  write_config_map, drop_config_map, policy_client,
}

abbrev pub device_plugin_config_label : Text
device_plugin_config_label = codes "nvidia.com/device-plugin.config"

abbrev pub time_slicing_config_map_name : Text
time_slicing_config_map_name = codes "device-plugin-config"

-- tsDPCD
unfoldable pub ts_dpcd : (ℤ → Text) → Text → ℤ → Labels
ts_dpcd print gpu_product replicas =
    if is_empty gpu_product || not (lt_int (pos 0) replicas)
    then []
    else (
      gpu_product,
      codes
            "version: v1\nsharing:\n  timeSlicing:\n    resources:\n      - name: nvidia.com/gpu\n        replicas: "
          ++ (print replicas ++ codes "\n"),
    )
      ∷ []

-- The loop that writes the new entries.
unfoldable pub insert_all : Labels → Labels → Labels
unfolding insert
insert_all [] existing = existing
insert_all ((k, v) ∷ data') existing = insert_all data' (insert k v existing)

-- A key with the suffix, whose base is a key too.
abbrev pub is_stale : Labels → Text → Bool
is_stale existing k =
    has_suffix gpu_product_shared_suffix k && is_some (lookup (base_gpu_product_name k) existing)

-- The loop that drops stale entries, over the keys that there were at its start.
unfoldable pub drop_shared : Labels → Labels → Labels
unfolding lookup delete_key base_gpu_product_name has_suffix
drop_shared [] existing = existing
drop_shared ((k, v) ∷ seen) existing =
    drop_shared seen (if is_stale existing k then delete_key k existing else existing)

abbrev pub merged : Labels → Labels → Labels
merged data' existing = drop_shared (insert_all data' existing) (insert_all data' existing)

abbrev pub lift : {A : Type 0} → Result CallError A × World → Outcome A
lift (ok a, w) = (ok a, w)
lift (err already_exists, w) = (err (call_failed (codes "already exists")), w)
lift (err missing, w) = (err (call_failed (codes "not found")), w)
lift (err (other e), w) = (err (call_failed e), w)

-- timeSlicingConfigSnapshot
pub record Snapshot : Type 0 where
  pub had_device_plugin_config : Bool
  pub device_plugin_config : Option PluginConfig
  pub gfd_enabled : Option Bool
  pub config_map_existed : Bool
  pub config_map_data : Labels

abbrev pub snapshot_config : Option PluginConfig → Bool × Option PluginConfig
snapshot_config none = (false, none)
snapshot_config (some cfg) =
    if not (is_empty cfg.name) || not (is_empty cfg.default_config)
    then (true, some cfg)
    else (false, none)

abbrev pub snapshot_of : Spec → Bool → Labels → Snapshot
snapshot_of spec existed data' = record {
  had_device_plugin_config = (snapshot_config spec.device_plugin_config).0;
  device_plugin_config = (snapshot_config spec.device_plugin_config).1;
  gfd_enabled = spec.gfd_enabled;
  config_map_existed = existed;
  config_map_data = data';
}

module _ (reads writes : Faults) where
  -- nvidiagpu.Pull
  unfoldable pub pull_policy : Action (CrdBuilder Spec)
  unfolding pull_cluster_policy
  pull_policy w =
      elim (pull_cluster_policy (policy_client reads writes)
        record { device_plugin_config = none; gfd_enabled = none; state = []; rest = [] }
        policy_name w) [ err e ↦ (err (builder_failed e), w) | ok b ↦ (ok b, w) ]

  -- A read through the builder's definition.
  abbrev pub spec_of : CrdBuilder Spec → Action (Object Spec)
  spec_of b w = elim b.definition [ none ↦ (err nil_pointer, w) | some o ↦ (ok o, w) ]

  abbrev pub with_spec : CrdBuilder Spec → Object Spec → CrdBuilder Spec
  with_spec b o = record b { definition = some o }

  abbrev pub update_outcome : CrdBuilder Spec × Option BuilderError × World → Outcome Unit
  update_outcome (b, none, w) = (ok tt, w)
  update_outcome (b, some e, w) = (err (builder_failed e), w)

  -- cpBuilder.Update
  unfoldable pub update_policy : Bool → CrdBuilder Spec → Action Unit
  update_policy force b w =
      update_outcome (update_cluster_policy (policy_client reads writes) force b w)

  -- A pull, a change of the specification, and an update.
  abbrev pub change_policy : Bool → (Spec → Spec) → CrdBuilder Spec → Action Unit
  change_policy force change b =
      spec_of b >>= λ o. update_policy force (with_spec b (record o { payload = change o.payload }))

  abbrev pub after_conflict : Labels → Action Labels
  after_conflict data' w = elim (read_config_map (reads w.calls) w.config_map) [
    | err e ↦ lift (err e, w)
    | ok existing ↦ lift (write_config_map (writes w.calls) w.config_map (merged data' existing) w)
  ]

  abbrev pub after_create : Labels → Result CallError Labels × World → Outcome Labels
  after_create data' (ok created, w) = (ok created, w)
  after_create data' (err already_exists, w) = after_conflict data' w
  after_create data' (err missing, w) = lift (err missing, w)
  after_create data' (err (other e), w) = lift (err (other e), w)

  -- updateTimeSlicingDevicePluginConfigMap
  unfoldable pub update_config_map : (ℤ → Text) → Text → ℤ → Action Labels
  unfolding ts_dpcd insert_all drop_shared
  update_config_map print gpu_product replicas w =
      after_create (ts_dpcd print gpu_product replicas)
        (add_config_map (writes w.calls) w.config_map (ts_dpcd print gpu_product replicas) w)

  abbrev pub snapshot_with : Spec → Result CallError Labels → Action Snapshot
  snapshot_with spec (ok data') w = (ok (snapshot_of spec true data'), w)
  snapshot_with spec (err missing) w = (ok (snapshot_of spec false []), w)
  snapshot_with spec (err already_exists) w = lift (err already_exists, w)
  snapshot_with spec (err (other e)) w = lift (err (other e), w)

  -- captureTimeSlicingConfigSnapshot
  unfoldable pub capture_snapshot : Action Snapshot
  unfolding pull_policy
  capture_snapshot = pull_policy >>= λ b.
      spec_of b >>= λ o w. snapshot_with o.payload (read_config_map (reads w.calls) w.config_map) w

  abbrev pub restored : Option CallError × World → Outcome Unit
  restored (none, w) = (ok tt, w)
  restored (some missing, w) = (ok tt, w)
  restored (some already_exists, w) = lift (err already_exists, w)
  restored (some (other e), w) = lift (err (other e), w)

  abbrev pub rewritten : Result CallError Labels × World → Outcome Unit
  rewritten (ok d, w) = (ok tt, w)
  rewritten (err e, w) = lift (err e, w)

  abbrev pub write_back : Labels → Result CallError Labels → Action Unit
  write_back data' (ok existing) w =
      rewritten (write_config_map (writes w.calls) w.config_map data' w)
  write_back data' (err missing) w = (ok tt, w)
  write_back data' (err already_exists) w = lift (err already_exists, w)
  write_back data' (err (other e)) w = lift (err (other e), w)

  -- restoreTimeSlicingDevicePluginConfigMap
  unfoldable pub restore_config_map : Snapshot → Action Unit
  restore_config_map snap w =
      if snap.config_map_existed
      then write_back snap.config_map_data (read_config_map (reads w.calls) w.config_map) w
      else restored (drop_config_map (writes w.calls) w.config_map w)
