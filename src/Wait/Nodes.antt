-- ===== src/Wait/Nodes.antt =====
-- internal/wait/wait.go: waiting for nodes and for a DaemonSet. The polls are the worlds in which the
-- condition lists the nodes, and the client's answers to Get.
pub mod Selected
use nvidia_ci.Common.{
  Bool, true, false, not, List, [], ◌∷◌, ◌++◌, Option, none, some, if◌then◌else◌, is_nil, Result,
  ok, err, ◌>>=◌,
}
use nvidia_ci.Text.{Text, codes, text_eq}
use nvidia_ci.Text.Labels.{Labels, lookup, insert}
use nvidia_ci.Text.Number.{ℤ, pos, lt_int, eq_int}
use nvidia_ci.Wait.Poll.{Step, go_on, done, stop, Ended, poll}

-- Object.Name and Object.Labels of a node.
pub record Node : Type 0 where
  pub name : Text
  pub labels : Labels

abbrev pub done_if : Bool → Step Text
done_if answer = if answer then done else go_on

-- How NodeLabelExists ends: it refuses the selector, or as the wait does.
pub data LabelWait : Type 0 where
  conflict : LabelWait
  waited : Ended Text → LabelWait

-- `list` is nodes.List with a label selector.
module _ {World : Type 0} (list : Labels → World → Result Text (List Node)) where
  abbrev pub some_node : Result Text (List Node) → Step Text
  some_node (err e) = stop e
  some_node (ok nodes) = done_if (not (is_nil nodes))

  -- The selector with the label.
  abbrev pub wait_for_some : Labels → List World → LabelWait
  wait_for_some selector polls = waited (poll (λ w. some_node (list selector w)) polls)

  -- The value that the selector asks for already.
  abbrev pub unless_conflict : Text → Option Text → Labels → List World → LabelWait
  unless_conflict value none selector polls = wait_for_some selector polls
  unless_conflict value (some v) selector polls =
      if text_eq v value then wait_for_some selector polls else conflict

  -- NodeLabelExists
  unfoldable pub node_label_exists : Text → Text → Labels → List World → LabelWait
  unfolding lookup
  node_label_exists key value selector polls =
      unless_conflict value (lookup key selector) (insert key value selector) polls

  module _ (condition : Node → Result Text Bool) where
    -- The loop over the nodes.
    unfoldable pub all_satisfied : List Node → Step Text
    all_satisfied [] = done
    all_satisfied (n ∷ nodes) =
        let rest = all_satisfied nodes in
        elim (condition n) [
          | err e ↦ stop (codes "failed to check node " ++ (n.name ++ (codes ": " ++ e)))
          | ok satisfied ↦ if satisfied then rest else go_on
        ]

    abbrev pub nodes_satisfied : Result Text (List Node) → Step Text
    nodes_satisfied (err e) = stop (codes "error listing nodes: " ++ e)
    nodes_satisfied (ok []) = stop (codes "no nodes found")
    nodes_satisfied (ok (n ∷ nodes)) = all_satisfied (n ∷ nodes)

    -- WaitForNodes
    unfoldable pub wait_for_nodes : Labels → List World → Ended Text
    unfolding all_satisfied
    wait_for_nodes selector polls = poll (λ w. nodes_satisfied (list selector w)) polls

-- The fields of a DaemonSet that the wait reads.
pub record DaemonSet : Type 0 where
  pub generation : ℤ
  pub observed_generation : ℤ
  pub updated_number_scheduled : ℤ
  pub desired_number_scheduled : ℤ
  pub number_available : ℤ

abbrev pub rolled_out : DaemonSet → Step Text
rolled_out ds =
    if not (eq_int ds.observed_generation ds.generation)
    then go_on
    else if not (eq_int ds.updated_number_scheduled ds.desired_number_scheduled)
    then go_on
    else if lt_int (pos 0) ds.desired_number_scheduled
    then done_if (eq_int ds.number_available ds.desired_number_scheduled)
    else go_on

abbrev pub daemon_set_step : Result Text DaemonSet → Step Text
daemon_set_step (err e) = stop (codes "error getting DaemonSet: " ++ e)
daemon_set_step (ok ds) = rolled_out ds

-- DaemonSetReady
unfoldable pub daemon_set_ready : List (Result Text DaemonSet) → Ended Text
daemon_set_ready polls = poll daemon_set_step polls
