-- ===== src/Cluster/Namespace/Defs.antt =====
-- The methods of the namespace builder, by the common form of the builders of pkg/olm; WithOptions is
-- left out.
use nvidia_ci.Common.{
  Bool, true, ◌&&◌, List, [], ◌∷◌, Option, none, some, if◌then◌else◌, is_nil, any, length, ltb,
  ◌==◌, Result, ok, err,
}
use nvidia_ci.Text.{Text, codes, text_eq, is_empty}
use nvidia_ci.Text.Labels.{Labels, insert}
use nvidia_ci.Cluster.Api.{
  Reply, found, not_found, failed, Client, Builder, BuilderError, message, does_not_exist,
}
use nvidia_ci.Cluster.Crd.{checked}
use nvidia_ci.Cluster.Olm.{
  OlmKind, checked_olm, with_change, olm_exists, olm_pulled, olm_create, olm_delete, olm_update,
  OlmOutcome,
}
use nvidia_ci.Wait.Poll.{Step, go_on, done, stop, Ended, reached, timed_out, stopped, poll}

abbrev pub namespace_kind : OlmKind
namespace_kind = record {
  kind = record { name = codes "Namespace"; crd_name = codes "NameSpace" };
  name_error = codes "namespace 'name' cannot be empty";
  nsname_error = [];
}

-- The payload is the labels.
abbrev pub NamespaceBuilder : Type 0
NamespaceBuilder = Builder Labels

abbrev pub namespace_builder : Text → Text → NamespaceBuilder
namespace_builder name error_msg = record {
  definition = some (record { name = name; namespace = []; payload = [] });
  object = none;
  error_msg = error_msg;
  has_client = true;
}

-- NewBuilder with a client
abbrev pub new_namespace : Text → NamespaceBuilder
new_namespace name =
    namespace_builder name (if is_empty name then namespace_kind.name_error else [])

-- validate
abbrev pub checked_namespace : NamespaceBuilder → NamespaceBuilder
checked_namespace = checked_olm namespace_kind

-- WithLabel
abbrev pub with_label : Text → Text → NamespaceBuilder → NamespaceBuilder
with_label key value b =
    with_change namespace_kind (if is_empty key then codes "'key' cannot be empty" else [])
      (λ (m : Labels). insert key value m) b

-- WithMultipleLabels, in the order in which the map is gone through
unfoldable pub with_multiple_labels : Labels → NamespaceBuilder → NamespaceBuilder
unfolding with_change insert
with_multiple_labels [] b = b
with_multiple_labels ((k, v) ∷ labels) b = with_multiple_labels labels (with_label k v b)

-- One poll of DeleteAndWait: any other answer than NotFound lets it go on.
abbrev pub until_not_found : Reply Labels → Step Text
until_not_found (found o) = go_on
until_not_found (not_found o) = done
until_not_found (failed o e) = go_on

-- How DeleteAndWait ends: with the error of validate or of Delete, or as the wait does.
pub data NamespaceWait : Type 0 where
  refused : BuilderError → NamespaceWait
  waited : Ended Text → NamespaceWait

-- A kind of object that CleanObjects removes: its resource, the error of the deletion, and the names
-- of the objects that are left, at each poll up to the timeout.
pub record Cleaning : Type 0 where
  pub resource : Text
  pub deletion : Option Text
  pub polls : List (Result Text (List Text))

abbrev pub has_name : Text → List Text → Bool
has_name name names = any (λ n. text_eq n name) names

-- hasOnlyDefaultConfigMaps, of a valid builder, for a listing without an error
abbrev pub has_only_default_config_maps : List Text → Bool
has_only_default_config_maps names =
    length names == 2
    && (has_name (codes "kube-root-ca.crt") names
        && has_name (codes "openshift-service-ca.crt") names)

abbrev pub is_config_maps : Text → Bool
is_config_maps resource = text_eq resource (codes "configmaps")

-- Nothing to wait for: at most one object, or the default ConfigMaps.
abbrev pub is_clean : Text → List Text → Bool
is_clean resource names =
    if ltb 1 (length names)
    then is_config_maps resource && has_only_default_config_maps names
    else true

-- The condition of the wait of CleanObjects.
abbrev pub clean_step : Text → Result Text (List Text) → Step Text
clean_step resource (err e) = stop e
clean_step resource (ok names) = if is_clean resource names then done else go_on

abbrev pub wait_error : Ended Text → Option BuilderError → Option BuilderError
wait_error reached rest = rest
wait_error timed_out rest = some (message (codes "timed out"))
wait_error (stopped e) rest = some (message e)

abbrev pub cleaned_one : Option Text → Ended Text → Option BuilderError → Option BuilderError
cleaned_one (some e) wait rest = some (message e)
cleaned_one none wait rest = wait_error wait rest

-- The loop over the resources.
unfoldable pub clean_all : List Cleaning → Option BuilderError
unfolding text_eq
clean_all [] = none
clean_all (c ∷ objects) =
    let rest = clean_all objects in
    cleaned_one c.deletion (poll (clean_step c.resource) c.polls) rest

module _ (c : Client Labels) where
  open c use {World}

  abbrev pub namespace_exists : NamespaceBuilder → World → Bool × NamespaceBuilder
  namespace_exists = olm_exists namespace_kind c

  -- Pull
  unfoldable pub pull_namespace : Text → World → Result BuilderError NamespaceBuilder
  unfolding olm_exists
  pull_namespace nsname w = olm_pulled namespace_kind c (
      namespace_exists
        (namespace_builder nsname
          (if is_empty nsname then codes "'namespace' cannot be empty" else []))
        w)

  abbrev pub create_namespace : NamespaceBuilder → World → OlmOutcome namespace_kind c
  create_namespace = olm_create namespace_kind c

  abbrev pub update_namespace : NamespaceBuilder → World → OlmOutcome namespace_kind c
  update_namespace = olm_update namespace_kind c

  abbrev pub delete_namespace : NamespaceBuilder → World → OlmOutcome namespace_kind c
  delete_namespace = olm_delete namespace_kind c

  abbrev pub namespace_wait_behind :
      OlmOutcome namespace_kind c → List (Reply Labels) → NamespaceWait
  namespace_wait_behind (b, some e, w) polls = refused e
  namespace_wait_behind (b, none, w) polls = waited (poll until_not_found polls)

  -- DeleteAndWait; validate is asked twice, by Delete too. The polls are the answers to Get.
  unfoldable pub delete_namespace_and_wait :
      NamespaceBuilder → World → List (Reply Labels) → NamespaceWait
  unfolding olm_delete
  delete_namespace_and_wait b w polls = namespace_wait_behind (delete_namespace b w) polls

  -- CleanObjects
  unfoldable pub clean_objects : NamespaceBuilder → World → List Cleaning → Option BuilderError
  unfolding olm_exists clean_all checked
  clean_objects b w objects =
      if is_empty (checked_namespace b).error_msg
      then if is_nil objects
        then some (message (codes "failed to remove empty list of object"))
        else if (namespace_exists (checked_namespace b) w).0
        then clean_all objects
        else some does_not_exist
      else some (message (checked_namespace b).error_msg)
