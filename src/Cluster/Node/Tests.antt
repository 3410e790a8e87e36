-- ===== src/Cluster/Node/Tests.antt =====
-- Runs of the node builder on one node.
use nvidia_ci.Common.{◌↔◌, ◌≡◌, refl, [], ◌∷◌, none, ok}
use nvidia_ci.Text.{codes}
use nvidia_ci.Cluster.Api.{Object, found, Client}
use nvidia_ci.Wait.Poll.{reached, timed_out}
use nvidia_ci.Cluster.Olm.{olm_exists}
use nvidia_ci.Cluster.Crd.{checked}
use nvidia_ci.Text.{text_eq}
use nvidia_ci.Cluster.Node.Defs.{
  wait_for_status, NodeFields, NodeBuilder, node_is_ready, wait_until_ready, wait_until_not_ready,
  status_of, node_ready, with_node_label, with_new_node_label, remove_node_label, update_node,
}
use nvidia_ci.Cluster.Node.Ready.{node_builder, IsAwaited, node_waits_iff}

abbrev World : Type 0
World = Object NodeFields

abbrev one_node : Client NodeFields
one_node = record {
  World = World;
  get = λ ns n w. found w;
  create = λ o w. (ok o, o);
  update = λ o w. (ok o, o);
  delete = λ ns n w. (none, w);
}

abbrev worker : World
worker = record {
  name = codes "w";
  namespace = [];
  payload = record {
    labels = (codes "a", codes "1") ∷ [];
    conditions = (codes "Ready", codes "True") ∷ [];
    creation_timestamp = codes "t";
    resource_version = codes "7";
  };
}

abbrev unknown : World
unknown = record worker {
  payload = record worker.payload { conditions = (codes "Ready", codes "Unknown") ∷ [] };
}

node_waits_iff_example :
    ((wait_until_ready one_node (node_builder worker none) (unknown ∷ worker ∷ []) ≡ ok reached)
      ↔ IsAwaited one_node worker
          (λ s. s ≡ codes "True" → ⊥)
          (λ s. s ≡ codes "True")
          (unknown ∷ worker ∷ []))
    × ((wait_until_not_ready one_node (node_builder worker none) (unknown ∷ worker ∷ [])
          ≡ ok reached)
        ↔ IsAwaited one_node worker
            (λ s. s ≡ codes "Unknown")
            (λ s. s ≡ codes "Unknown" → ⊥)
            (unknown ∷ worker ∷ []))
node_waits_iff_example = node_waits_iff one_node worker none (unknown ∷ worker ∷ [])

not_ready_while_ready :
    wait_until_not_ready one_node (node_builder worker none) (worker ∷ []) ≡ ok reached
unfolding wait_for_status olm_exists checked status_of text_eq
not_ready_while_ready = refl

never_ends :
    wait_until_not_ready one_node (node_builder worker none) (unknown ∷ unknown ∷ []) ≡ ok timed_out
unfolding nvidia_ci.Cluster.Node.Defs.wait_for_status
never_ends = refl

kept :
    (with_new_node_label (codes "a") (codes "2") (node_builder worker none)).error_msg
    ≡ codes "cannot overwrite existing node label"
unfolding with_new_node_label
kept = refl

labelled :
    with_new_node_label
      (codes "a")
      (codes "1")
      (remove_node_label (codes "a") (node_builder worker none))
    ≡ node_builder worker none
unfolding with_new_node_label nvidia_ci.Text.Labels.delete_key
labelled = refl
