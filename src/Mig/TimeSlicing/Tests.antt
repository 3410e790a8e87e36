-- ===== src/Mig/TimeSlicing/Tests.antt =====
-- Time slicing on a cluster with one node, where the first writing call fails.
use nvidia_ci.Common.{zero, suc, ◌≡◌, refl, Bool, true, false, [], ◌∷◌, none, some, ok}
use nvidia_ci.Text.{Text, codes}
use nvidia_ci.Text.Labels.{Labels}
use nvidia_ci.Text.Number.{ℤ, pos}
use nvidia_ci.Mig.Nodes.{gpu_product_label_key}
use nvidia_ci.Mig.TimeSlicing.Store.{Spec, GpuNode, World, Faults}
use nvidia_ci.Mig.TimeSlicing.Defs.{
  time_slicing_config_map_name, device_plugin_config_label, Snapshot, capture_snapshot,
}
use nvidia_ci.Mig.TimeSlicing.Flow.{create_time_slicing_config, remove_time_slicing_config}
use nvidia_ci.Mig.TimeSlicing.Policy.{no_faults}
use nvidia_ci.Mig.TimeSlicing.Restored.{normal, remove-create-capture}

-- The first writing call fails.
abbrev writes : Faults
writes zero = some (codes "conflict")
writes (suc n) = none

abbrev all_nodes : GpuNode → Bool
all_nodes n = true

abbrev spec : Spec
spec = record {
  device_plugin_config = some (record { name = codes "c"; default_config = [] });
  gfd_enabled = some false;
  state = codes "ready";
  rest = codes "r";
}

abbrev product_label : Text × Text
product_label = (gpu_product_label_key, codes "A")

abbrev node_with : Labels → GpuNode
node_with labels = record { name = codes "n"; labels = labels }

abbrev before : World
before = record {
  policy = some spec;
  config_map = some ((codes "A-SHARED", codes "x") ∷ []);
  nodes = node_with (product_label ∷ []) ∷ [];
  calls = 0;
}

abbrev two : ℤ → Text
two z = codes "2"

abbrev yaml : Text
yaml =
    codes
      "version: v1\nsharing:\n  timeSlicing:\n    resources:\n      - name: nvidia.com/gpu\n        replicas: 2\n"

abbrev during : World
during = record {
  policy = some (record spec {
    device_plugin_config =
        some (record { name = time_slicing_config_map_name; default_config = codes "A" });
    gfd_enabled = some true;
  });
  config_map = some ((codes "A", yaml) ∷ []);
  nodes = node_with (product_label ∷ (device_plugin_config_label, codes "A") ∷ []) ∷ [];
  calls = 7;
}

abbrev after : World
after = record before { calls = 12 }

abbrev snap : Snapshot
snap = record {
  had_device_plugin_config = true;
  device_plugin_config = spec.device_plugin_config;
  gfd_enabled = some false;
  config_map_existed = true;
  config_map_data = (codes "A-SHARED", codes "x") ∷ [];
}

captures : capture_snapshot no_faults writes before ≡ (ok snap, before)
unfolding capture_snapshot
captures = refl

creates :
    create_time_slicing_config no_faults writes all_nodes two [] (codes "A") (pos 2) before
    ≡ (ok ((codes "A", yaml) ∷ []), during)
unfolding create_time_slicing_config nvidia_ci.Mig.TimeSlicing.Defs.update_policy
    nvidia_ci.Cluster.Crd.crd_update nvidia_ci.Text.trim_suffix nvidia_ci.Text.Trim.trim_space
creates = refl

removes :
    remove_time_slicing_config no_faults writes all_nodes snap true (before ∷ []) during
    ≡ (ok tt, after)
unfolding remove_time_slicing_config nvidia_ci.Mig.TimeSlicing.Defs.update_policy
    nvidia_ci.Cluster.Crd.crd_update
removes = refl

remove-create-capture_example :
    (after.policy ≡ some (record spec { device_plugin_config = normal spec.device_plugin_config }))
    × (after.config_map ≡ before.config_map)
remove-create-capture_example =
    remove-create-capture writes all_nodes two [] (codes "A") (pos 2) true (before ∷ []) spec snap
      ((codes "A", yaml) ∷ []) before before during after refl captures creates removes
