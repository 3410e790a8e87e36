-- ===== src/Cluster/Crd/Defs.antt =====
-- The methods that the builders of cluster-scoped custom resources share, over the kind's texts:
-- NicClusterPolicy, IPoIBNetwork, MacvlanNetwork and, but for its constructors, ClusterPolicy. A
-- builder's Get returns nil beside every error.
use nvidia_ci.Common.{
  Bool, true, false, List, [], ◌∷◌, ◌++◌, Option, none, some, if◌then◌else◌, Result, ok, err,
}
use nvidia_ci.Text.{Text, codes, text_eq, is_empty}
use nvidia_ci.Cluster.Api.{
  Object, Reply, found, not_found, failed, seems_there, Client, Builder, BuilderError, message,
  empty_name, does_not_exist, cannot_delete, api_error,
}

-- The kind's name in alm-examples, and the name in the texts of validate.
pub record Kind : Type 0 where
  pub name : Text
  pub crd_name : Text

-- The payload is the specification with the status.
abbrev pub CrdBuilder : Type 0 → Type 0
CrdBuilder = Builder

-- msg.UndefinedCrdObjectErrString
abbrev pub undefined_error : Kind → Text
undefined_error k = codes "can not redefine the undefined " ++ k.crd_name

abbrev pub no_client_error : Kind → Text
no_client_error k = k.crd_name ++ codes " builder cannot have nil apiClient"

-- The items of an alm-example, each with its Kind.
abbrev pub Items : Type 0 → Type 0
Items P = List (Text × Object P)

module _ (k : Kind) {P : Type 0} where
  abbrev pub error_of : Option (Object P) → Bool → Text → Text
  error_of definition false error_msg = no_client_error k
  error_of none true error_msg = undefined_error k
  error_of (some d) true error_msg = error_msg

  -- validate writes its error into the builder.
  unfoldable pub checked : CrdBuilder P → CrdBuilder P
  checked b = record b { error_msg = error_of b.definition b.has_client b.error_msg }

  -- The first item of the kind.
  unfoldable pub find_item : Items P → Option (Object P)
  find_item [] = none
  find_item ((kind, item) ∷ items) = if text_eq kind k.name then some item else find_item items

  -- getXFromAlmExample; `none` is any of its errors.
  unfoldable pub from_alm_example : (Text → Option (Items P)) → Text → Option (Object P)
  unfolding find_item
  from_alm_example unmarshal alm_example =
      if is_empty alm_example
      then none
      else elim (unmarshal alm_example) [ none ↦ none | some items ↦ find_item items ]

  -- NewXBuilderFromObjectString with a client that is not nil; `example_error` is the error's text.
  unfoldable pub builder_from_alm_example :
      (Text → Option (Items P)) → (Text → Text) → Text → CrdBuilder P
  unfolding from_alm_example
  builder_from_alm_example unmarshal example_error alm_example = record {
    definition = from_alm_example unmarshal alm_example;
    object = none;
    error_msg = elim (from_alm_example unmarshal alm_example) [
      | none ↦
          codes "Error initializing "
          ++ (k.name ++ (codes " from alm-examples: " ++ example_error alm_example))
      | some item ↦ []
    ];
    has_client = true;
  }

  -- err == nil || !k8serrors.IsNotFound(err), with nil beside an error
  abbrev pub got : Reply P → Option (Object P)
  got (found o) = some o
  got (not_found o) = none
  got (failed o e) = none

module _ (k : Kind) {P : Type 0} (c : Client P) where
  open c use {World, get, create, update, delete}

  abbrev pub ask : Option (Object P) → World → Reply P
  ask none w = not_found none
  ask (some d) w = get [] d.name w

  abbrev pub exists_if : Bool → CrdBuilder P → World → Bool × CrdBuilder P
  exists_if false b w = (false, b)
  exists_if true b w =
      (seems_there (ask b.definition w), record b { object = got k (ask b.definition w) })

  -- Exists
  unfoldable pub crd_exists : CrdBuilder P → World → Bool × CrdBuilder P
  unfolding checked
  crd_exists b w = exists_if (is_empty (checked k b).error_msg) (checked k b) w

  abbrev pub pulled : Bool × CrdBuilder P → Result BuilderError (CrdBuilder P)
  pulled (false, b) = err does_not_exist
  pulled (true, b) = ok (record b { definition = b.object })

  -- PullX; the new definition has only its name.
  unfoldable pub crd_pull : P → Text → World → Result BuilderError (CrdBuilder P)
  unfolding crd_exists
  crd_pull no_spec name w =
      if is_empty name
      then err empty_name
      else pulled (
          crd_exists
            record {
              definition = some (record { name = name; namespace = []; payload = no_spec });
              object = none;
              error_msg = [];
              has_client = true;
            }
            w)

  -- The builder, the error and the world behind a call.
  abbrev pub Outcome : Type 0
  Outcome = CrdBuilder P × Option BuilderError × World

  abbrev pub deleted : CrdBuilder P → Option Text × World → Outcome
  deleted b (some e, w) = (b, some (api_error e), w)
  deleted b (none, w) = (record b { object = none }, none, w)

  abbrev pub call_delete : Option (Object P) → World → Option Text × World
  call_delete none w = (some [], w)
  call_delete (some d) w = delete [] d.name w

  abbrev pub delete_when : Bool × CrdBuilder P → World → Outcome
  delete_when (false, b) w = (b, some cannot_delete, w)
  delete_when (true, b) w = deleted b (call_delete b.definition w)

  abbrev pub delete_if : Bool → CrdBuilder P → World → Outcome
  delete_if false b w = (b, some (message b.error_msg), w)
  delete_if true b w = delete_when (crd_exists b w) w

  -- Delete
  unfoldable pub crd_delete : CrdBuilder P → World → Outcome
  unfolding crd_exists
  crd_delete b w = delete_if (is_empty (checked k b).error_msg) (checked k b) w

  -- The call writes the cluster's answer into the definition, which is then the object too.
  abbrev pub created : CrdBuilder P → Result Text (Object P) × World → Outcome
  created b (ok o, w) = (record b { definition = some o; object = some o }, none, w)
  created b (err e, w) = (b, some (api_error e), w)

  abbrev pub call_create : Option (Object P) → World → Result Text (Object P) × World
  call_create none w = (err [], w)
  call_create (some d) w = create d w

  abbrev pub create_unless : Bool × CrdBuilder P → World → Outcome
  create_unless (true, b) w = (b, none, w)
  create_unless (false, b) w = created b (call_create b.definition w)

  abbrev pub create_if : Bool → CrdBuilder P → World → Outcome
  create_if false b w = (b, some (message b.error_msg), w)
  create_if true b w = create_unless (crd_exists b w) w

  -- Create
  unfoldable pub crd_create : CrdBuilder P → World → Outcome
  unfolding crd_exists
  crd_create b w = create_if (is_empty (checked k b).error_msg) (checked k b) w

  abbrev pub recreate : Outcome → Outcome
  recreate (b, some e, w) = (b, some e, w)
  recreate (b, none, w) = crd_create b w

  abbrev pub call_update : Option (Object P) → World → Result Text (Object P) × World
  call_update none w = (err [], w)
  call_update (some d) w = update d w

  -- The call writes the cluster's answer into the definition.
  abbrev pub updated : Bool → CrdBuilder P → Result Text (Object P) × World → Outcome
  updated force b (ok o, w) = (record b { definition = some o }, none, w)
  updated false b (err e, w) = (b, some (api_error e), w)
  updated true b (err e, w) = recreate (crd_delete b w)

  abbrev pub update_if : Bool → Bool → CrdBuilder P → World → Outcome
  update_if force false b w = (b, some (message b.error_msg), w)
  update_if force true b w = updated force b (call_update b.definition w)

  -- Update; beside the error of a failed Delete the source returns nil for the builder.
  unfoldable pub crd_update : Bool → CrdBuilder P → World → Outcome
  unfolding crd_create crd_delete
  crd_update force b w = update_if force (is_empty (checked k b).error_msg) (checked k b) w
