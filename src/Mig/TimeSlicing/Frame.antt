-- ===== src/Mig/TimeSlicing/Frame.antt =====
-- About the node labels, the daemon sets and the wait: they leave the ClusterPolicy and the ConfigMap.
use nvidia_ci.Common.{◌≡◌, refl, ◌∙◌, Bool, true, false, List, [], ◌∷◌, Option, none, some, ok, err}
use nvidia_ci.Text.{Text}
use nvidia_ci.Text.Labels.{Labels, lookup}
use nvidia_ci.Mig.TimeSlicing.Store.{
  Spec, GpuNode, World, Faults, Outcome, Action, continue, ◌>>◌, put_node, policy_client,
  policy_name,
}
use nvidia_ci.Mig.TimeSlicing.Defs.{device_plugin_config_label}
use nvidia_ci.Wait.Poll.{Ended, reached, timed_out, stopped}
use nvidia_ci.Wait.Ready.{Failure, cluster_policy_ready}
use nvidia_ci.Mig.TimeSlicing.Flow.{
  attempt, label_node, unlabel_node, ended, config_key, update_node, label_nodes, unlabel_nodes,
  restart_one, restart_daemon_sets, await_ready,
}
use nvidia_ci.Mig.TimeSlicing.Policy.{no_faults}

-- The policy and the ConfigMap are as before.
abbrev pub IsSame : World → World → Type 0
IsSame w w' = (w'.policy ≡ w.policy) × (w'.config_map ≡ w.config_map)

IsSame-trans : (u v w : World) → IsSame u v → IsSame v w → IsSame u w
IsSame-trans u v w (a, b) (c, d) = (c ∙ a, d ∙ b)

continue-IsSame :
    {A B : Type 0} (f : A → Action B) (r : Outcome A)
    → ((a : A) (v : World) → IsSame v (f a v).1)
    → IsSame r.1 (continue f r).1
continue-IsSame f (ok a, w) same = same a w
continue-IsSame f (err e, w) same = (refl, refl)

module _ (writes : Faults) (selected : GpuNode → Bool) where
  attempt-IsSame :
      (f : Option Text) (w good : World) → IsSame w good → IsSame w (attempt f w good).1
  attempt-IsSame none w good same = same
  attempt-IsSame (some e) w good same = (refl, refl)

  update_node-IsSame :
      (n : GpuNode) (w : World) → IsSame w (update_node no_faults writes selected n w).1
  update_node-IsSame n w =
      attempt-IsSame (writes w.calls) w (record w { nodes = put_node n w.nodes }) (refl, refl)

  -- A node that is written, and the rest of the loop.
  written-IsSame :
      (n : GpuNode) (rest : Action Unit) (w : World)
      → ((v : World) → IsSame v (rest v).1)
      → IsSame w ((update_node no_faults writes selected n >> rest) w).1
  written-IsSame n rest w same =
      IsSame-trans w (update_node no_faults writes selected n w).1
        ((update_node no_faults writes selected n >> rest) w).1 (update_node-IsSame n w)
        (continue-IsSame (λ (u : Unit). rest) (update_node no_faults writes selected n w)
          (λ a v. same v))

  label_node-IsSame :
      (o : Option Text) (n : GpuNode) (rest : Action Unit) (w : World)
      → ((v : World) → IsSame v (rest v).1)
      → IsSame w (label_node no_faults writes selected o n rest w).1
  label_node-IsSame none n rest w same = same w
  label_node-IsSame (some key) n rest w same = written-IsSame _ rest w same

  pub label_nodes-IsSame :
      (cm_data : Labels) (nodes : List GpuNode) (w : World)
      → IsSame w (label_nodes no_faults writes selected cm_data nodes w).1
  unfolding label_nodes
  label_nodes-IsSame cm_data [] w = (refl, refl)
  label_nodes-IsSame cm_data (n ∷ nodes) w =
      label_node-IsSame (config_key cm_data n) n
        (label_nodes no_faults writes selected cm_data nodes) w
        (λ v. label_nodes-IsSame cm_data nodes v)

  unlabel_node-IsSame :
      (o : Option Text) (n : GpuNode) (rest : Action Unit) (w : World)
      → ((v : World) → IsSame v (rest v).1)
      → IsSame w (unlabel_node no_faults writes selected o n rest w).1
  unlabel_node-IsSame none n rest w same = same w
  unlabel_node-IsSame (some value) n rest w same = written-IsSame _ rest w same

  pub unlabel_nodes-IsSame :
      (nodes : List GpuNode) (w : World)
      → IsSame w (unlabel_nodes no_faults writes selected nodes w).1
  unfolding unlabel_nodes
  unlabel_nodes-IsSame [] w = (refl, refl)
  unlabel_nodes-IsSame (n ∷ nodes) w =
      unlabel_node-IsSame (lookup device_plugin_config_label n.labels) n
        (unlabel_nodes no_faults writes selected nodes) w (λ v. unlabel_nodes-IsSame nodes v)

  pub restart_daemon_sets-IsSame :
      (w : World) → IsSame w (restart_daemon_sets no_faults writes selected w).1
  restart_daemon_sets-IsSame w =
      IsSame-trans w (attempt (writes w.calls) w w).1
        (restart_daemon_sets no_faults writes selected w).1
        (attempt-IsSame (writes w.calls) w w (refl, refl))
        (continue-IsSame (λ (u : Unit). restart_one no_faults writes selected)
          (attempt (writes w.calls) w w) (λ a v. attempt-IsSame (writes v.calls) v v (refl, refl)))

  pub await_ready-IsSame :
      (wait_for_ready : Bool) (polls : List World) (w : World)
      → IsSame w (await_ready no_faults writes selected wait_for_ready polls w).1
  await_ready-IsSame false polls w = (refl, refl)
  await_ready-IsSame true polls w = same (
      cluster_policy_ready (λ (s : Spec). s.state) (policy_client no_faults writes)
        record { device_plugin_config = none; gfd_enabled = none; state = []; rest = [] }
        policy_name polls)
    where
      same : (e : Ended Failure) → IsSame w (ended no_faults writes selected e w).1
      same reached = (refl, refl)
      same timed_out = (refl, refl)
      same (stopped e) = (refl, refl)
