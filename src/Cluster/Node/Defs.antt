-- ===== src/Cluster/Node/Defs.antt =====
-- The methods of the node builder, over the labels and the conditions of a node. The drains, which
-- kubectl does, and WithOptions are left out.
use nvidia_ci.Common.{
  Bool, true, false, List, [], ◌∷◌, Option, none, some, if◌then◌else◌, Result, ok, err,
}
use nvidia_ci.Text.{Text, codes, text_eq, is_empty}
use nvidia_ci.Text.Labels.{Labels, lookup, insert, delete_key}
use nvidia_ci.Cluster.Api.{
  Object, Client, Builder, BuilderError, message, does_not_exist, cannot_delete,
}
use nvidia_ci.Cluster.Crd.{checked}
use nvidia_ci.Cluster.Olm.{
  OlmKind, checked_olm, with_change, olm_exists, olm_pulled, OlmOutcome, olm_written,
  call_olm_update,
}
use nvidia_ci.Wait.Poll.{Step, go_on, done, stop, Ended, poll}

-- The texts of the constructors do not occur: a node is only pulled.
abbrev pub node_kind : OlmKind
node_kind = record {
  kind = record { name = codes "Node"; crd_name = codes "Node" };
  name_error = [];
  nsname_error = [];
}

-- The parts of a node that the methods use: a condition's type and its status, and two fields that the
-- server sets, "" if they are not set.
pub record NodeFields : Type 0 where
  pub labels : Labels
  pub conditions : List (Text × Text)
  pub creation_timestamp : Text
  pub resource_version : Text

abbrev pub NodeBuilder : Type 0
NodeBuilder = Builder NodeFields

-- validate
abbrev pub checked_node : NodeBuilder → NodeBuilder
checked_node = checked_olm node_kind

abbrev pub empty_key_error : Text → Text
empty_key_error key = if is_empty key then codes "error to set empty key to node" else []

abbrev pub empty_removed_key_error : Text → Text
empty_removed_key_error key =
    if is_empty key then codes "error to remove empty key from node" else []

-- WithLabel
abbrev pub with_node_label : Text → Text → NodeBuilder → NodeBuilder
with_node_label key value =
    with_change node_kind (empty_key_error key)
      (λ (n : NodeFields). record n { labels = insert key value n.labels })

-- RemoveLabel, which does not read the value
abbrev pub remove_node_label : Text → NodeBuilder → NodeBuilder
remove_node_label key =
    with_change node_kind (empty_removed_key_error key)
      (λ (n : NodeFields). record n { labels = delete_key key n.labels })

abbrev pub overwrite_error : Text → Option (Object NodeFields) → Text
overwrite_error key none = []
overwrite_error key (some d) = elim (lookup key d.payload.labels) [
  | none ↦ []
  | some value ↦ codes "cannot overwrite existing node label"
]

-- WithNewLabel
unfoldable pub with_new_node_label : Text → Text → NodeBuilder → NodeBuilder
unfolding with_change lookup insert
with_new_node_label key value b =
    with_change node_kind
      (if is_empty key
        then codes "error to set empty key to node"
        else overwrite_error key b.definition)
      (λ (n : NodeFields). record n { labels = insert key value n.labels }) b

-- The status of the first condition of the type
unfoldable pub status_of : Text → List (Text × Text) → Option Text
unfolding text_eq
status_of condition_type [] = none
status_of condition_type ((t, s) ∷ conditions) =
    let rest = status_of condition_type conditions in
    if text_eq t condition_type then some s else rest

-- Those of builder.Object behind Exists; a typed client's Get returns an object, an empty one, beside an
-- error.
abbrev pub conditions_of : Option (Object NodeFields) → List (Text × Text)
conditions_of none = []
conditions_of (some o) = o.payload.conditions

-- A condition of a wait on the status, behind Exists.
abbrev pub status_step : (Text → Bool) → Text → Bool × NodeBuilder → Step BuilderError
status_step is_end condition_type (false, b) = stop does_not_exist
status_step is_end condition_type (true, b) =
    elim (status_of condition_type (conditions_of b.object)) [
      | none ↦ stop (message (codes "the condition could not be found"))
      | some s ↦ if is_end s then done else go_on
    ]

abbrev pub is_true : Text → Bool
is_true status = text_eq status (codes "True")

abbrev pub is_not_unknown : Text → Bool
is_not_unknown status = if text_eq status (codes "Unknown") then false else true

abbrev pub node_ready : Text
node_ready = codes "Ready"

module _ (c : Client NodeFields) where
  open c use {World, delete}

  abbrev pub node_exists : NodeBuilder → World → Bool × NodeBuilder
  node_exists = olm_exists node_kind c

  -- Pull, which takes any name
  unfoldable pub pull_node : Text → NodeFields → World → Result BuilderError NodeBuilder
  unfolding olm_exists
  pull_node name no_fields w = olm_pulled node_kind c (
      node_exists
        record {
          definition = some (record { name = name; namespace = []; payload = no_fields });
          object = none;
          error_msg = [];
          has_client = true;
        }
        w)

  -- Without what the server sets.
  abbrev pub to_be_sent : Option (Object NodeFields) → Option (Object NodeFields)
  to_be_sent none = none
  to_be_sent (some d) =
      some
        (record d { payload = record d.payload { creation_timestamp = []; resource_version = [] } })

  abbrev pub updated_node :
      Bool × NodeBuilder → World → Result BuilderError (OlmOutcome node_kind c)
  updated_node (false, b) w = err does_not_exist
  updated_node (true, b) w = ok (
      olm_written node_kind c (record b { definition = to_be_sent b.definition })
        (call_olm_update node_kind c (to_be_sent b.definition) w))

  -- Update; `err` is an error before the call of the cluster.
  unfoldable pub update_node : NodeBuilder → World → Result BuilderError (OlmOutcome node_kind c)
  unfolding olm_exists checked
  update_node b w =
      if is_empty (checked_node b).error_msg
      then updated_node (node_exists (checked_node b) w) w
      else err (message (checked_node b).error_msg)

  abbrev pub node_deleted : NodeBuilder → Option Text × World → OlmOutcome node_kind c
  node_deleted b (some e, w) = (b, some cannot_delete, w)
  node_deleted b (none, w) = (record b { object = none }, none, w)

  abbrev pub delete_found_node : Bool × NodeBuilder → World → OlmOutcome node_kind c
  delete_found_node (false, b) w = (b, some does_not_exist, w)
  delete_found_node (true, b) w = elim b.definition [
    | none ↦ (b, none, w)
    | some d ↦ node_deleted b (delete d.namespace d.name w)
  ]

  -- Delete, which asks for the node, and by the name of the definition
  unfoldable pub delete_node : NodeBuilder → World → OlmOutcome node_kind c
  unfolding olm_exists checked
  delete_node b w =
      if is_empty (checked_node b).error_msg
      then delete_found_node (node_exists (checked_node b) w) w
      else (checked_node b, some (message (checked_node b).error_msg), w)

  abbrev pub ready_of : Bool × NodeBuilder → Result BuilderError Bool
  ready_of (false, b) = err does_not_exist
  ready_of (true, b) = elim (status_of node_ready (conditions_of b.object)) [
    | none ↦ err (message (codes "the Ready condition could not be found"))
    | some s ↦ ok (is_true s)
  ]

  -- IsReady
  unfoldable pub node_is_ready : NodeBuilder → World → Result BuilderError Bool
  unfolding olm_exists checked status_of text_eq
  node_is_ready b w =
      if is_empty (checked_node b).error_msg
      then ready_of (node_exists (checked_node b) w)
      else err (message (checked_node b).error_msg)

  -- A wait: the error of validate, or how it ends. The polls are the worlds in which the condition asks.
  unfoldable pub wait_for_status :
      (Text → Bool) → Text → NodeBuilder → List World → Result BuilderError (Ended BuilderError)
  unfolding olm_exists checked status_of
  wait_for_status is_end condition_type b polls =
      if is_empty (checked_node b).error_msg
      then ok (poll (λ w. status_step is_end condition_type (node_exists (checked_node b) w)) polls)
      else err (message (checked_node b).error_msg)

  -- WaitUntilConditionTrue
  abbrev pub wait_until_condition_true :
      Text → NodeBuilder → List World → Result BuilderError (Ended BuilderError)
  wait_until_condition_true = wait_for_status is_true

  -- WaitUntilConditionUnknown
  abbrev pub wait_until_condition_unknown :
      Text → NodeBuilder → List World → Result BuilderError (Ended BuilderError)
  wait_until_condition_unknown = wait_for_status is_not_unknown

  -- WaitUntilReady
  abbrev pub wait_until_ready : NodeBuilder → List World → Result BuilderError (Ended BuilderError)
  wait_until_ready = wait_until_condition_true node_ready

  -- WaitUntilNotReady
  abbrev pub wait_until_not_ready :
      NodeBuilder → List World → Result BuilderError (Ended BuilderError)
  wait_until_not_ready = wait_until_condition_unknown node_ready
