-- ===== src/Mig/TimeSlicing/Restored.antt =====
-- About a capture of the configuration, a time-slicing configuration, and its removal.
use nvidia_ci.Common.{
  ◌≡◌, refl, sym, ap, ◌∙◌, subst, Bool, true, false, not, ◌||◌, List, Option, none, some,
  if◌then◌else◌, Result, ok,
}
use nvidia_ci.Text.{Text, is_empty}
use nvidia_ci.Text.Labels.{Labels}
use nvidia_ci.Text.Number.{ℤ}
use nvidia_ci.Mig.TimeSlicing.Store.{
  PluginConfig, Spec, GpuNode, World, Faults, Outcome, Action, ◌>>◌,
}
use nvidia_ci.Mig.TimeSlicing.Defs.{
  Snapshot, snapshot_config, capture_snapshot, restore_config_map, pull_policy,
}
use nvidia_ci.Mig.TimeSlicing.Flow.{
  keep, gfd_on, config_on, config_back, remove_node_labels, create_time_slicing_config,
  restart_daemon_sets, await_ready, clean_up, put_back, remove_time_slicing_config,
}
use nvidia_ci.Mig.TimeSlicing.Policy.{no_faults, continue-eq-ok, pull_policy-eq}
use nvidia_ci.Mig.TimeSlicing.Frame.{
  IsSame, unlabel_nodes-IsSame, restart_daemon_sets-IsSame, await_ready-IsSame,
}
use nvidia_ci.Mig.TimeSlicing.Captured.{
  IsBack, HasTaken, restore_config_map-IsBack, capture_snapshot-HasTaken,
}
use nvidia_ci.Mig.TimeSlicing.Configured.{changed, create-IsConfigured}

-- A configuration with no name and no default counts as none.
abbrev pub normal : Option PluginConfig → Option PluginConfig
normal cfg = (snapshot_config cfg).1

module _ (writes : Faults) where
  module _ (selected : GpuNode → Bool) where
    cleaned :
        (snap : Snapshot) (m : Labels) (w w' : World)
        → w.config_map ≡ some m
        → clean_up no_faults writes selected snap w ≡ (ok tt, w')
        → IsBack writes snap w w'
    cleaned snap m w w' there h =
        let (u, w1, first, more) =
          continue-eq-ok (λ (u : Unit). restart_daemon_sets no_faults writes selected)
            (restore_config_map no_faults writes snap w) h in
        let (p, c) = restore_config_map-IsBack writes snap m w w1 there first in
        let (p', c') =
          subst (IsSame w1) (ap (λ (t : Outcome Unit). t.1) more)
            (restart_daemon_sets-IsSame writes selected w1) in
        (p' ∙ p, c' ∙ c)

    removed :
        (snap : Snapshot) (wait_for_ready : Bool) (polls : List World) (spec : Spec) (m : Labels)
        (w w' : World)
        → w.policy ≡ some spec
        → w.config_map ≡ some m
        → remove_time_slicing_config no_faults writes selected snap wait_for_ready polls w
          ≡ (ok tt, w')
        → (w'.policy ≡ some (config_back snap spec))
          × (w'.config_map ≡ (if snap.config_map_existed then some snap.config_map_data else none))
    unfolding remove_time_slicing_config
    removed snap wait_for_ready polls spec m w w' there cm h =
        let (u, w1, labels, more) =
          continue-eq-ok
            (λ (u : Unit) v.
              put_back no_faults writes selected snap wait_for_ready polls
                (pull_policy no_faults writes v))
            (remove_node_labels no_faults writes selected w) h in
        let (p, c) =
          subst (IsSame w) (ap (λ (t : Outcome Unit). t.1) labels)
            (unlabel_nodes-IsSame writes selected (keep selected w.nodes) w) in
        let there1 = p ∙ there in
        let rest : Action Unit =
          clean_up no_faults writes selected snap
          >> await_ready no_faults writes selected wait_for_ready polls in
        let (w2, (pol, cm2), more2) =
          changed writes selected false (config_back snap) rest w1 w' spec there1 (
            sym (
              ap (put_back no_faults writes selected snap wait_for_ready polls)
                (pull_policy-eq writes w1 spec there1))
            ∙ more) in
        let (u', w3, cleaning, last) =
          continue-eq-ok (λ (u : Unit). await_ready no_faults writes selected wait_for_ready polls)
            (clean_up no_faults writes selected snap w2) more2 in
        let (p3, c3) = cleaned snap m w2 w3 (cm2 ∙ c ∙ cm) cleaning in
        let (p4, c4) =
          subst (IsSame w3) (ap (λ (t : Outcome Unit). t.1) last)
            (await_ready-IsSame writes selected wait_for_ready polls w3) in
        (p4 ∙ p3 ∙ pol, c4 ∙ c3)

    kept_config :
        (cfg : Option PluginConfig)
        → (if (snapshot_config cfg).0 then (snapshot_config cfg).1 else none) ≡ normal cfg
    kept_config none = refl
    kept_config (some cfg) = either (not (is_empty cfg.name) || not (is_empty cfg.default_config))
      where
        tried : Bool → Bool × Option PluginConfig
        tried b = if b then (true, some cfg) else (false, none)

        either : (b : Bool) → (if (tried b).0 then (tried b).1 else none) ≡ (tried b).1
        either true = refl
        either false = refl

    config_back_lem :
        (snap : Snapshot) (spec : Spec) (product : Text) (w : World)
        → HasTaken writes snap spec w
        → config_back snap (config_on product (gfd_on spec))
          ≡ record spec { device_plugin_config = normal spec.device_plugin_config }
    config_back_lem snap spec product w (had, cfg, gfd, cm) =
        ap
          (λ (b : Bool). record spec {
            device_plugin_config = if b then snap.device_plugin_config else none;
            gfd_enabled = snap.gfd_enabled;
          })
          had
        ∙ ap
            (λ (c : Option PluginConfig). record spec {
              device_plugin_config =
                  if (snapshot_config spec.device_plugin_config).0 then c else none;
              gfd_enabled = snap.gfd_enabled;
            })
            cfg
        ∙ ap
            (λ (g : Option Bool). record spec {
              device_plugin_config =
                  if (snapshot_config spec.device_plugin_config).0
                  then (snapshot_config spec.device_plugin_config).1
                  else none;
              gfd_enabled = g;
            })
            gfd
        ∙ ap (λ (c : Option PluginConfig). record spec { device_plugin_config = c })
            (kept_config spec.device_plugin_config)

    -- Where no reading call fails, for a cluster with a ClusterPolicy, and whatever writing calls fail:
    -- if the capture, the creation and the removal with that capture report no error, the ClusterPolicy
    -- is as before, but that a device-plugin configuration without name and default is gone, and so is
    -- the data of the ConfigMap, or the ConfigMap is missing if it was.
    pub remove-create-capture :
        (print : ℤ → Text) (labels : List (Result Text (List Labels))) (gpu_product : Text)
        (replicas : ℤ) (wait_for_ready : Bool) (polls : List World) (spec : Spec) (snap : Snapshot)
        (out : Labels) (w w1 w2 w3 : World)
        → w.policy ≡ some spec
        → capture_snapshot no_faults writes w ≡ (ok snap, w1)
        → create_time_slicing_config no_faults writes selected print labels gpu_product replicas w1
          ≡ (ok out, w2)
        → remove_time_slicing_config no_faults writes selected snap wait_for_ready polls w2
          ≡ (ok tt, w3)
        → (w3.policy
            ≡ some (record spec { device_plugin_config = normal spec.device_plugin_config }))
          × (w3.config_map ≡ w.config_map)
    remove-create-capture print labels gpu_product replicas wait_for_ready polls spec snap out w w1
          w2 w3 there captures creates removes =
        let (same, taken') = capture_snapshot-HasTaken writes spec snap w w1 there captures in
        let ((product, pol), (m, cm)) =
          create-IsConfigured writes selected print labels gpu_product replicas spec w1 w2 out
            (ap (λ (v : World). v.policy) (sym same) ∙ there) creates in
        let (p, c) =
          removed snap wait_for_ready polls (config_on product (gfd_on spec)) m w2 w3 pol cm
            removes in
        (p ∙ ap some (config_back_lem snap spec product w taken'), c ∙ taken'.3)
