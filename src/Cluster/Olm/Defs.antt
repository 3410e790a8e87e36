-- ===== src/Cluster/Olm/Defs.antt =====
-- The methods that the builders of pkg/olm share, over the kind's texts. What a failed Create or Update
-- leaves in Object is left out.
use nvidia_ci.Common.{Bool, true, false, [], Option, none, some, if◌then◌else◌, Result, ok, err}
use nvidia_ci.Text.{Text, is_empty}
use nvidia_ci.Cluster.Api.{
  Object, Reply, not_found, reply_object, seems_there, Client, Builder, BuilderError, message,
  does_not_exist, api_error,
}
use nvidia_ci.Cluster.Crd.{Kind, checked}

-- The kind, and the errors for an empty name and an empty namespace.
pub record OlmKind : Type 0 where
  pub kind : Kind
  pub name_error : Text
  pub nsname_error : Text

-- The last test that fails gives the message.
abbrev pub names_error : OlmKind → Text → Text → Text
names_error k name nsname =
    if is_empty nsname then k.nsname_error else if is_empty name then k.name_error else []

-- NewXBuilder with a client, a specification, and the message of the tests behind those of the names.
unfoldable pub new_olm_builder : {P : Type 0} → OlmKind → Text → Text → P → Text → Builder P
new_olm_builder k name nsname spec spec_error = record {
  definition = some (record { name = name; namespace = nsname; payload = spec });
  object = none;
  error_msg = if is_empty spec_error then names_error k name nsname else spec_error;
  has_client = true;
}

module _ (k : OlmKind) {P : Type 0} where
  -- validate
  abbrev pub checked_olm : Builder P → Builder P
  checked_olm = checked k.kind

  -- A change of the definition, or a message; a builder that is not valid is left as it is, but for
  -- the message of validate.
  unfoldable pub with_change : Text → (P → P) → Builder P → Builder P
  unfolding checked
  with_change failure change b =
      if is_empty (checked_olm b).error_msg
      then if is_empty failure
        then record b {
          definition = elim b.definition [
            | none ↦ none
            | some d ↦ some (record d { payload = change d.payload })
          ];
        }
        else record b { error_msg = failure }
      else checked_olm b

module _ (k : OlmKind) {P : Type 0} (c : Client P) where
  open c use {World, get, create, update, delete}

  abbrev pub lookup_olm : Option (Object P) → World → Reply P
  lookup_olm none w = not_found none
  lookup_olm (some d) w = get d.namespace d.name w

  abbrev pub olm_exists_if : Bool → Builder P → World → Bool × Builder P
  olm_exists_if false b w = (false, b)
  olm_exists_if true b w = (
    seems_there (lookup_olm b.definition w),
    record b { object = reply_object (lookup_olm b.definition w) },
  )

  -- Exists
  unfoldable pub olm_exists : Builder P → World → Bool × Builder P
  unfolding checked
  olm_exists b w = olm_exists_if (is_empty (checked_olm k b).error_msg) (checked_olm k b) w

  abbrev pub olm_pulled : Bool × Builder P → Result BuilderError (Builder P)
  olm_pulled (false, b) = err does_not_exist
  olm_pulled (true, b) = ok (record b { definition = b.object })

  -- PullX
  unfoldable pub olm_pull : P → Text → Text → World → Result BuilderError (Builder P)
  unfolding olm_exists new_olm_builder
  olm_pull no_spec name nsname w =
      olm_pulled (olm_exists (new_olm_builder k name nsname no_spec []) w)

  -- The builder, the error and the world behind a call.
  abbrev pub OlmOutcome : Type 0
  OlmOutcome = Builder P × Option BuilderError × World

  abbrev pub olm_written : Builder P → Result Text (Object P) × World → OlmOutcome
  olm_written b (ok o, w) = (record b { object = some o }, none, w)
  olm_written b (err e, w) = (b, some (api_error e), w)

  abbrev pub call_olm_create : Option (Object P) → World → Result Text (Object P) × World
  call_olm_create none w = (err [], w)
  call_olm_create (some d) w = create d w

  abbrev pub olm_create_unless : Bool × Builder P → World → OlmOutcome
  olm_create_unless (true, b) w = (b, none, w)
  olm_create_unless (false, b) w = olm_written b (call_olm_create b.definition w)

  abbrev pub olm_create_if : Bool → Builder P → World → OlmOutcome
  olm_create_if false b w = (b, some (message b.error_msg), w)
  olm_create_if true b w = olm_create_unless (olm_exists b w) w

  -- Create
  unfoldable pub olm_create : Builder P → World → OlmOutcome
  unfolding olm_exists
  olm_create b w = olm_create_if (is_empty (checked_olm k b).error_msg) (checked_olm k b) w

  abbrev pub olm_deleted : Builder P → Option Text × World → OlmOutcome
  olm_deleted b (some e, w) = (b, some (api_error e), w)
  olm_deleted b (none, w) = (record b { object = none }, none, w)

  -- The definition's namespace with the object's name; a typed client's Get returns an object, an empty
  -- one, beside every error.
  abbrev pub call_olm_delete : Option (Object P) → Option (Object P) → World → Option Text × World
  call_olm_delete none o w = (none, w)
  call_olm_delete (some d) none w = delete d.namespace [] w
  call_olm_delete (some d) (some o) w = delete d.namespace o.name w

  abbrev pub olm_delete_when : Bool × Builder P → World → OlmOutcome
  olm_delete_when (false, b) w = (b, none, w)
  olm_delete_when (true, b) w = olm_deleted b (call_olm_delete b.definition b.object w)

  abbrev pub olm_delete_if : Bool → Builder P → World → OlmOutcome
  olm_delete_if false b w = (b, some (message b.error_msg), w)
  olm_delete_if true b w = olm_delete_when (olm_exists b w) w

  -- Delete
  unfoldable pub olm_delete : Builder P → World → OlmOutcome
  unfolding olm_exists
  olm_delete b w = olm_delete_if (is_empty (checked_olm k b).error_msg) (checked_olm k b) w

  abbrev pub call_olm_update : Option (Object P) → World → Result Text (Object P) × World
  call_olm_update none w = (err [], w)
  call_olm_update (some d) w = update d w

  abbrev pub olm_update_if : Bool → Builder P → World → OlmOutcome
  olm_update_if false b w = (b, some (message b.error_msg), w)
  olm_update_if true b w = olm_written b (call_olm_update b.definition w)

  -- Update
  unfoldable pub olm_update : Builder P → World → OlmOutcome
  unfolding checked
  olm_update b w = olm_update_if (is_empty (checked_olm k b).error_msg) (checked_olm k b) w
