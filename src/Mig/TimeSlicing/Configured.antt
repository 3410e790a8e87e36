-- ===== src/Mig/TimeSlicing/Configured.antt =====
-- About CreateTimeSlicingConfig: what it leaves of the ClusterPolicy and of the ConfigMap.
use nvidia_ci.Common.{
  ◌≡◌, sym, ap, ◌∙◌, subst, Bool, true, Bool-cases, inl, inr, List, Option, none, some, Result, ok,
}
use nvidia_ci.Text.{Text, is_empty}
use nvidia_ci.Text.Labels.{Labels}
use nvidia_ci.Text.Number.{ℤ, pos, lt_int}
use nvidia_ci.Mig.Nodes.{base_gpu_product_name}
use nvidia_ci.Mig.TimeSlicing.Store.{Spec, GpuNode, World, Faults, Outcome, Action, ◌>>=◌, ◌>>◌}
use nvidia_ci.Mig.TimeSlicing.Defs.{update_config_map, pull_policy, change_policy}
use nvidia_ci.Mig.TimeSlicing.Flow.{
  keep, found_product, wait_for_gpu_product_label, gfd_on, config_on, product_of, apply_node_labels,
  configure, create_time_slicing_config,
}
use nvidia_ci.Mig.TimeSlicing.Policy.{
  no_faults, failed-ne-done, world_of, continue-eq-ok, pulled_builder, IsChanged,
  change_policy-IsChanged,
}
use nvidia_ci.Mig.TimeSlicing.Frame.{IsSame, label_nodes-IsSame}
use nvidia_ci.Mig.TimeSlicing.Captured.{update_config_map-IsMade, pulled}

module _ (writes : Faults) where
  module _ (selected : GpuNode → Bool) where
    -- A change of the policy, and what goes on behind it.
    pub changed :
        {A : Type 0} (force : Bool) (change : Spec → Spec) (rest : Action A) (w w' : World)
        (spec : Spec) {a : A}
        → w.policy ≡ some spec
        → (change_policy no_faults writes force change (pulled_builder spec) >> rest) w ≡ (ok a, w')
        → (v : World) × IsChanged writes (change spec) w.config_map v × (rest v ≡ (ok a, w'))
    changed force change rest w w' spec there h =
        let (u, v, first, more) =
          continue-eq-ok (λ (u : Unit). rest)
            (change_policy no_faults writes force change (pulled_builder spec) w) h in
        (v, change_policy-IsChanged writes force change w v spec there first, more)

    -- The policy has the configuration of some product, and there is a ConfigMap.
    abbrev pub IsConfigured : Spec → World → Type 0
    IsConfigured spec w =
        ((product : Text) × (w.policy ≡ some (config_on product (gfd_on spec))))
        × ((m : Labels) × (w.config_map ≡ some m))

    configured :
        (print : ℤ → Text) (replicas : ℤ) (product : Text) (spec : Spec) (w w' : World)
        (out : Labels)
        → w.policy ≡ some (gfd_on spec)
        → configure no_faults writes selected print replicas product w ≡ (ok out, w')
        → IsConfigured spec w'
    configured print replicas product spec w w' out there h = elim (Bool-cases (is_empty product)) [
      | inl e ↦ absurd (failed-ne-done (rw e at h))
      | inr e ↦
          let (d, w1, first, more) =
            continue-eq-ok
              (λ (d : Labels).
                apply_node_labels no_faults writes selected d
                >> (pull_policy no_faults writes >>= λ b.
                    change_policy no_faults writes true (config_on product) b >> (λ v. (ok d, v))))
              (update_config_map no_faults writes print product replicas w) (rw e at h) in
          let (same, (m, made)) =
            update_config_map-IsMade writes print product replicas d w w1 first in
          let (u, w2, labels, more') =
            continue-eq-ok
              (λ (u : Unit). pull_policy no_faults writes >>= λ b.
                change_policy no_faults writes true (config_on product) b >> (λ v. (ok d, v)))
              (apply_node_labels no_faults writes selected d w1) more in
          let (p, c) =
            subst (IsSame w1) (ap (λ (t : Outcome Unit). t.1) labels)
              (label_nodes-IsSame writes selected d (keep selected w1.nodes) w1) in
          let there2 = p ∙ same ∙ there in
          let (w3, (pol, cm), last) =
            changed true (config_on product) (λ v. (ok d, v)) w2 w' (gfd_on spec) there2
              (pulled writes _ w2 w' (gfd_on spec) there2 more') in
          subst (IsConfigured spec) (world_of last) ((product, pol), (m, cm ∙ c ∙ made))
    ]

    product_of-same :
        (o : Option Text) (product : Text) (w w' : World)
        → found_product o w ≡ (ok product, w')
        → w ≡ w'
    product_of-same none product w w' h = absurd (failed-ne-done h)
    product_of-same (some p) product w w' h = world_of h

    product_of_world :
        (gpu_product : Text) (polls : List (Result Text (List Labels))) (product : Text)
        (w w' : World)
        → product_of gpu_product polls w ≡ (ok product, w')
        → w ≡ w'
    product_of_world gpu_product polls product w w' h =
        elim (Bool-cases (is_empty (base_gpu_product_name gpu_product))) [
          | inl e ↦ product_of-same (wait_for_gpu_product_label polls) product w w' (rw e at h)
          | inr e ↦ world_of (rw e at h)
        ]

    pub create-IsConfigured :
        (print : ℤ → Text) (polls : List (Result Text (List Labels))) (gpu_product : Text)
        (replicas : ℤ) (spec : Spec) (w w' : World) (out : Labels)
        → w.policy ≡ some spec
        → create_time_slicing_config no_faults writes selected print polls gpu_product replicas w
          ≡ (ok out, w')
        → IsConfigured spec w'
    unfolding create_time_slicing_config
    create-IsConfigured print polls gpu_product replicas spec w w' out there h =
        elim (Bool-cases (lt_int (pos 0) replicas)) [
          | inr e ↦ absurd (failed-ne-done (rw e at h))
          | inl e ↦
              let rest : Action Labels = product_of gpu_product polls >>= λ product.
              configure no_faults writes selected print replicas product in
              let (w1, (pol, cm), more) =
                changed true gfd_on rest w w' spec there
                  (pulled writes _ w w' spec there (rw e at h)) in
              let (product, w2, found, last) =
                continue-eq-ok
                  (λ product. configure no_faults writes selected print replicas product)
                  (product_of gpu_product polls w1) more in
              configured print replicas product spec w2 w' out
                (ap (λ (v : World). v.policy)
                    (sym (product_of_world gpu_product polls product w1 w2 found))
                  ∙ pol)
                last
        ]
