-- ===== src/Cluster/Finalized/Defs.antt =====
-- The methods that NVIDIADriverBuilder and GPUClusterBuilder share, over what they do differently. A
-- builder's Get returns nil beside every error.
use nvidia_ci.Common.{
  Bool, true, false, List, [], ◌++◌, Option, none, some, if◌then◌else◌, Result, ok, err,
}
use nvidia_ci.Text.{Text, codes, is_empty}
use nvidia_ci.Cluster.Api.{
  Object, Reply, found, not_found, failed, Client, BuilderError, message, empty_name,
  does_not_exist, api_error,
}
use nvidia_ci.Cluster.Crd.{Kind, CrdBuilder, checked, got, ask}
use nvidia_ci.Wait.Poll.{Step, go_on, done, stop, Ended, poll}

-- Of the definition and the object that Exists has read, the one that Delete names; of the definition
-- and the answer to Create, the one that is the definition behind it: a typed Create writes its answer
-- into the definition.
pub record FinalizedKind (P : Type 0) : Type 0 where
  pub kind : Kind
  pub target : Object P → Object P → Object P
  pub kept : Object P → Object P → Object P

-- newXBuilder with a client: the definition or nil, and the text of the error.
unfoldable pub new_finalized :
    {P : Type 0} → FinalizedKind P → Option (Object P) → Option Text → CrdBuilder P
new_finalized f definition failure = record {
  definition = definition;
  object = none;
  error_msg = elim definition [
    | none ↦ f.kind.name ++ codes " 'Object.Definition' is nil"
    | some d ↦ elim failure [
      | none ↦ []
      | some e ↦ codes "Error initializing " ++ (f.kind.name ++ (codes " from alm-examples: " ++ e))
    ]
  ];
  has_client = true;
}

-- err == nil
abbrev pub is_found : {P : Type 0} → Reply P → Bool
is_found (found o) = true
is_found (not_found o) = false
is_found (failed o e) = false

-- The condition of DeleteAndWait on the answer to Get.
abbrev pub until_gone : {P : Type 0} → Reply P → Step Text
until_gone (found o) = go_on
until_gone (not_found o) = done
until_gone (failed o e) = stop e

-- How DeleteAndWait ends: with the error of validate or of Delete, or as the wait does.
pub data DeletedAndWaited : Type 0 where
  refused : BuilderError → DeletedAndWaited
  waited : Ended Text → DeletedAndWaited

-- `is_not_found` is k8serrors.IsNotFound on the error of a Delete.
module _ {P : Type 0} (f : FinalizedKind P) (c : Client P) (is_not_found : Text → Bool) where
  open c use {World, create, delete}

  abbrev pub Outcome : Type 0
  Outcome = CrdBuilder P × Option BuilderError × World

  abbrev pub exists_if : Bool → CrdBuilder P → World → Bool × CrdBuilder P
  exists_if false b w = (false, b)
  exists_if true b w = (
    is_found (ask f.kind c b.definition w),
    record b { object = got f.kind (ask f.kind c b.definition w) },
  )

  -- Exists
  unfoldable pub finalized_exists : CrdBuilder P → World → Bool × CrdBuilder P
  unfolding checked
  finalized_exists b w = exists_if (is_empty (checked f.kind b).error_msg) (checked f.kind b) w

  abbrev pub pulled : Bool × CrdBuilder P → Result BuilderError (CrdBuilder P)
  pulled (false, b) = err does_not_exist
  pulled (true, b) = ok (record b { definition = b.object })

  -- PullX; the new definition has only its name.
  unfoldable pub finalized_pull : P → Text → World → Result BuilderError (CrdBuilder P)
  unfolding finalized_exists
  finalized_pull no_spec name w =
      if is_empty name
      then err empty_name
      else pulled (
          finalized_exists
            record {
              definition = some (record { name = name; namespace = []; payload = no_spec });
              object = none;
              error_msg = [];
              has_client = true;
            }
            w)

  abbrev pub deleted : CrdBuilder P → Option Text × World → Outcome
  deleted b (none, w) = (record b { object = none }, none, w)
  deleted b (some e, w) =
      if is_not_found e then (record b { object = none }, none, w) else (b, some (api_error e), w)

  -- Exists has said yes, so there are a definition and an object.
  abbrev pub call_delete : Option (Object P) → Option (Object P) → World → Option Text × World
  call_delete (some d) (some o) w = delete (f.target d o).namespace (f.target d o).name w
  call_delete none o w = (none, w)
  call_delete (some d) none w = (none, w)

  abbrev pub delete_when : Bool × CrdBuilder P → World → Outcome
  delete_when (false, b) w = (b, none, w)
  delete_when (true, b) w = deleted b (call_delete b.definition b.object w)

  abbrev pub delete_if : Bool → CrdBuilder P → World → Outcome
  delete_if false b w = (b, some (message b.error_msg), w)
  delete_if true b w = delete_when (finalized_exists b w) w

  -- Delete
  unfoldable pub delete_finalized : CrdBuilder P → World → Outcome
  unfolding finalized_exists
  delete_finalized b w = delete_if (is_empty (checked f.kind b).error_msg) (checked f.kind b) w

  abbrev pub wait_behind : Outcome → List (Reply P) → DeletedAndWaited
  wait_behind (b, some e, w) polls = refused e
  wait_behind (b, none, w) polls = waited (poll until_gone polls)

  abbrev pub wait_if : Bool → CrdBuilder P → World → List (Reply P) → DeletedAndWaited
  wait_if false b w polls = refused (message b.error_msg)
  wait_if true b w polls = wait_behind (delete_finalized b w) polls

  -- DeleteAndWait; the polls are the answers to Get behind the Delete.
  unfoldable pub delete_and_wait : CrdBuilder P → World → List (Reply P) → DeletedAndWaited
  unfolding delete_finalized
  delete_and_wait b w polls =
      wait_if (is_empty (checked f.kind b).error_msg) (checked f.kind b) w polls

  abbrev pub keep : Option (Object P) → Object P → Option (Object P)
  keep none o = none
  keep (some d) o = some (f.kept d o)

  abbrev pub created : CrdBuilder P → Result Text (Object P) × World → Outcome
  created b (ok o, w) = (record b { definition = keep b.definition o; object = some o }, none, w)
  created b (err e, w) = (b, some (api_error e), w)

  abbrev pub call_create : Option (Object P) → World → Result Text (Object P) × World
  call_create none w = (err [], w)
  call_create (some d) w = create d w

  abbrev pub create_unless : Bool × CrdBuilder P → World → Outcome
  create_unless (true, b) w = (b, none, w)
  create_unless (false, b) w = created b (call_create b.definition w)

  abbrev pub create_if : Bool → CrdBuilder P → World → Outcome
  create_if false b w = (b, some (message b.error_msg), w)
  create_if true b w = create_unless (finalized_exists b w) w

  -- Create
  unfoldable pub create_finalized : CrdBuilder P → World → Outcome
  unfolding finalized_exists
  create_finalized b w = create_if (is_empty (checked f.kind b).error_msg) (checked f.kind b) w
