-- ===== src/Cluster/ClusterPolicy.antt =====
-- pkg/nvidiagpu/clusterpolicy.go: the ClusterPolicy builder.
use nvidia_ci.Common.{Bool, true, [], ◌++◌, Option, none, some, if◌then◌else◌, Result, ok, err}
use nvidia_ci.Text.{Text, codes, is_empty}
use nvidia_ci.Text.Trim.{trim_space}
use nvidia_ci.Text.Number.{pos}
use nvidia_ci.Common.{List}
use nvidia_ci.Cluster.Alm.{AlmError, alm_example_item}
use nvidia_ci.Cluster.Api.{Object, Client, BuilderError}
use nvidia_ci.Cluster.Crd.{
  Kind, CrdBuilder, checked, crd_exists, crd_delete, crd_create, crd_update, Outcome, pulled,
}

abbrev pub cluster_policy_kind : Kind
cluster_policy_kind = record { name = codes "ClusterPolicy"; crd_name = codes "ClusterPolicy" }

abbrev pub alm_message : Text → Text
alm_message e = codes "Error initializing ClusterPolicy from alm-examples: " ++ e

-- newBuilder with a client; the definition is never nil, and the error is the text of `err`.
unfoldable pub new_cluster_policy_builder : {P : Type 0} → Object P → Option Text → CrdBuilder P
new_cluster_policy_builder policy failure = record {
  definition = some policy;
  object = none;
  error_msg = elim failure [ none ↦ [] | some e ↦ alm_message e ];
  has_client = true;
}

-- NewBuilderFromDefinition
abbrev pub cluster_policy_from_definition : {P : Type 0} → Object P → CrdBuilder P
cluster_policy_from_definition policy = record {
  definition = some policy;
  object = none;
  error_msg = [];
  has_client = true;
}

-- `decode` is Unmarshal into a zero ClusterPolicy: what it has filled in, and its error. `describe` is
-- the text of an error, and `no_policy` the zero ClusterPolicy.
module _ {P Raw : Type 0} (unmarshal : Text → Result Text (List Raw))
    (decode : Raw → Object P × Option Text) (describe : AlmError → Text)
    (no_policy : Object P) where
  abbrev pub decoded : Raw → CrdBuilder P
  decoded raw = new_cluster_policy_builder (decode raw).0 (decode raw).1

  -- NewBuilderFromObjectString
  unfoldable pub cluster_policy_from_string : Text → CrdBuilder P
  unfolding new_cluster_policy_builder alm_example_item
  cluster_policy_from_string alm_example = elim (alm_example_item unmarshal (pos 0) alm_example) [
    | err e ↦ new_cluster_policy_builder no_policy (some (describe e))
    | ok raw ↦ decoded raw
  ]

  -- DecodePatch and the patch's Apply, with their errors' texts.
  module _ {Patch : Type 0} (decode_patch : Text → Result Text Patch)
      (apply_patch : Patch → Raw → Result Text Raw) where
    abbrev pub patched : Raw → Text → Result Text Raw
    patched raw patch_json = elim (decode_patch patch_json) [
      | err e ↦ err (codes "invalid JSON patch: " ++ e)
      | ok patch ↦ apply_patch patch raw
    ]

    abbrev pub from_patched : Result Text Raw → CrdBuilder P
    from_patched (err e) = new_cluster_policy_builder no_policy (some e)
    from_patched (ok raw) = decoded raw

    -- NewBuilderFromObjectStringAndPatch
    unfoldable pub cluster_policy_from_string_and_patch : Text → Text → CrdBuilder P
    unfolding new_cluster_policy_builder alm_example_item
    cluster_policy_from_string_and_patch alm_example patch_json =
        if is_empty (trim_space patch_json)
        then new_cluster_policy_builder no_policy
            (some (codes "patch JSON cannot be an empty string"))
        else elim (alm_example_item unmarshal (pos 0) alm_example) [
          | err e ↦ new_cluster_policy_builder no_policy (some (describe e))
          | ok raw ↦ from_patched (patched raw patch_json)
        ]

-- validate
abbrev pub checked_cluster_policy : {P : Type 0} → CrdBuilder P → CrdBuilder P
checked_cluster_policy = checked cluster_policy_kind

module _ {P : Type 0} (c : Client P) where
  abbrev pub cluster_policy_exists : CrdBuilder P → c.World → Bool × CrdBuilder P
  cluster_policy_exists = crd_exists cluster_policy_kind c

  -- Pull: an empty name is an error of the builder, so that Exists says no.
  unfoldable pub pull_cluster_policy : P → Text → c.World → Result BuilderError (CrdBuilder P)
  unfolding crd_exists checked
  pull_cluster_policy no_spec name w = pulled cluster_policy_kind c (
      cluster_policy_exists
        record {
          definition = some (record { name = name; namespace = []; payload = no_spec });
          object = none;
          error_msg = if is_empty name then codes "ClusterPolicy 'name' cannot be empty" else [];
          has_client = true;
        }
        w)

  abbrev pub delete_cluster_policy : CrdBuilder P → c.World → Outcome cluster_policy_kind c
  delete_cluster_policy = crd_delete cluster_policy_kind c

  abbrev pub create_cluster_policy : CrdBuilder P → c.World → Outcome cluster_policy_kind c
  create_cluster_policy = crd_create cluster_policy_kind c

  abbrev pub update_cluster_policy : Bool → CrdBuilder P → c.World → Outcome cluster_policy_kind c
  update_cluster_policy = crd_update cluster_policy_kind c
