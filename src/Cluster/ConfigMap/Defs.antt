-- ===== src/Cluster/ConfigMap/Defs.antt =====
-- The methods of the ConfigMap builder, each with the builder and the world behind it.
use nvidia_ci.Common.{
  Bool, true, false, List, [], ◌∷◌, Option, none, some, if◌then◌else◌, is_nil, Result, ok, err,
}
use nvidia_ci.Text.{Text, codes, is_empty}
use nvidia_ci.Text.Labels.{Labels}
use nvidia_ci.Cluster.Api.{
  Object, Reply, found, not_found, failed, reply_object, seems_there, Client, Builder, BuilderError,
  undefined, no_client, message, empty_name, empty_namespace, does_not_exist, api_error,
}

-- The payload is Data.
abbrev pub ConfigMapBuilder : Type 0
ConfigMapBuilder = Builder Labels

abbrev pub config_map_of : Text → Text → Object Labels
config_map_of name nsname = record { name = name; namespace = nsname; payload = [] }

abbrev pub name_error : Text
name_error = codes "configmap 'name' cannot be empty"

abbrev pub nsname_error : Text
nsname_error = codes "configmap 'nsname' cannot be empty"

-- NewBuilder with a client that is not nil
unfoldable pub new_builder : Text → Text → ConfigMapBuilder
new_builder name nsname = record {
  definition = some (config_map_of name nsname);
  object = none;
  error_msg = if is_empty name then name_error else if is_empty nsname then nsname_error else [];
  has_client = true;
}

abbrev pub validate_rest : Bool → Text → Option BuilderError
validate_rest false error_msg = some no_client
validate_rest true [] = none
validate_rest true (c ∷ error_msg) = some (message (c ∷ error_msg))

-- validate: the error, if the builder is not valid
unfoldable pub validate : ConfigMapBuilder → Option BuilderError
validate b = elim b.definition [
  | none ↦ some undefined
  | some definition ↦ validate_rest b.has_client b.error_msg
]

module _ (c : Client Labels) where
  open c use {World, get, create, delete}

  -- What Get answers for the builder's definition.
  abbrev pub lookup_of : Object Labels → World → Reply Labels
  lookup_of definition w = get definition.namespace definition.name w

  abbrev pub exists_at : Option (Object Labels) → ConfigMapBuilder → World → Bool × ConfigMapBuilder
  exists_at none b w = (false, b)
  exists_at (some definition) b w = (
    seems_there (lookup_of definition w),
    record b { object = reply_object (lookup_of definition w) },
  )

  abbrev pub exists_if : Option BuilderError → ConfigMapBuilder → World → Bool × ConfigMapBuilder
  exists_if (some e) b w = (false, b)
  exists_if none b w = exists_at b.definition b w

  -- Exists
  unfoldable pub exists : ConfigMapBuilder → World → Bool × ConfigMapBuilder
  unfolding validate
  exists b w = exists_if (validate b) b w

  abbrev pub pulled : Bool × ConfigMapBuilder → Result BuilderError ConfigMapBuilder
  pulled (false, b) = err does_not_exist
  pulled (true, b) = ok (record b { definition = b.object })

  -- Pull
  unfoldable pub pull : Text → Text → World → Result BuilderError ConfigMapBuilder
  unfolding exists
  pull name nsname w =
      if is_empty name
      then err empty_name
      else if is_empty nsname
      then err empty_namespace
      else pulled (
          exists
            record {
              definition = some (config_map_of name nsname);
              object = none;
              error_msg = [];
              has_client = true;
            }
            w)

  -- The builder, the error and the world behind a call.
  abbrev pub Outcome : Type 0
  Outcome = ConfigMapBuilder × Option BuilderError × World

  -- What a failed call leaves in Object is left out.
  abbrev pub created : ConfigMapBuilder → Result Text (Object Labels) × World → Outcome
  created b (ok o, w) = (record b { object = some o }, none, w)
  created b (err e, w) = (b, some (api_error e), w)

  abbrev pub create_at : Option (Object Labels) → ConfigMapBuilder → World → Outcome
  create_at none b w = (b, some undefined, w)
  create_at (some definition) b w = created b (create definition w)

  abbrev pub create_unless : Bool × ConfigMapBuilder → World → Outcome
  create_unless (true, b) w = (b, none, w)
  create_unless (false, b) w = create_at b.definition b w

  abbrev pub create_if : Option BuilderError → ConfigMapBuilder → World → Outcome
  create_if (some e) b w = (b, some e, w)
  create_if none b w = create_unless (exists b w) w

  -- Create
  unfoldable pub create_config_map : ConfigMapBuilder → World → Outcome
  unfolding exists
  create_config_map b w = create_if (validate b) b w

  abbrev pub deleted : ConfigMapBuilder → Option Text × World → Outcome
  deleted b (some e, w) = (b, some (api_error e), w)
  deleted b (none, w) = (record b { object = none }, none, w)

  abbrev pub name_of : Option (Object Labels) → Text
  name_of none = []
  name_of (some o) = o.name

  abbrev pub namespace_of : Option (Object Labels) → Text
  namespace_of none = []
  namespace_of (some o) = o.namespace

  -- The definition's namespace with the object's name; a typed client's Get returns an object, an empty
  -- one, beside every error, so the object is not nil.
  abbrev pub delete_when : Bool × ConfigMapBuilder → World → Outcome
  delete_when (false, b) w = (b, none, w)
  delete_when (true, b) w = deleted b (delete (namespace_of b.definition) (name_of b.object) w)

  abbrev pub delete_if : Option BuilderError → ConfigMapBuilder → World → Outcome
  delete_if (some e) b w = (b, some e, w)
  delete_if none b w = delete_when (exists b w) w

  -- Delete
  unfoldable pub delete_config_map : ConfigMapBuilder → World → Outcome
  unfolding exists
  delete_config_map b w = delete_if (validate b) b w

abbrev pub data_error : Text
data_error = codes "'data' cannot be empty"

abbrev pub with_definition : (Object Labels → Object Labels) → ConfigMapBuilder → ConfigMapBuilder
with_definition f b = elim b.definition [ none ↦ b | some o ↦ record b { definition = some (f o) } ]

abbrev pub with_data_if : Option BuilderError → ConfigMapBuilder → Labels → ConfigMapBuilder
with_data_if (some e) b content = b
with_data_if none b content =
    if is_nil content
    then record b { error_msg = data_error }
    else with_definition (λ o. record o { payload = content }) b

-- WithData
unfoldable pub with_data : ConfigMapBuilder → Labels → ConfigMapBuilder
unfolding validate
with_data b content = with_data_if (validate b) b content

-- What an option does: the builder it was given, as it leaves it; the builder that it returns; and
-- its error text.
pub record OptionResult : Type 0 where
  pub given : ConfigMapBuilder
  pub returned : ConfigMapBuilder
  pub error : Option Text

abbrev pub AdditionalOption : Type 0
AdditionalOption = ConfigMapBuilder → OptionResult

abbrev pub after_option : Option Text → OptionResult → ConfigMapBuilder → ConfigMapBuilder
after_option none r later = later
after_option (some e) r later = record r.returned { error_msg = e }

-- The loop over the options that are not nil. `builder, err := option(builder)` declares a new
-- variable in each round: what an option returns is read only beside an error.
unfoldable pub apply_options : List AdditionalOption → ConfigMapBuilder → ConfigMapBuilder
apply_options [] b = b
apply_options (option ∷ options) b =
    after_option (option b).error (option b) (apply_options options (option b).given)

abbrev pub with_options_if :
    Option BuilderError → List AdditionalOption → ConfigMapBuilder → ConfigMapBuilder
with_options_if (some e) options b = b
with_options_if none options b = apply_options options b

-- WithOptions
unfoldable pub with_options : ConfigMapBuilder → List AdditionalOption → ConfigMapBuilder
unfolding validate apply_options
with_options b options = with_options_if (validate b) options b

pub data Waited : Type 0 where
  gone timed_out : Waited
  invalid : BuilderError → Waited
  wait_failed : Text → Waited

-- The polls up to the timeout, by what each of them is answered.
unfoldable pub poll_until_gone : List (Reply Labels) → Waited
poll_until_gone [] = timed_out
poll_until_gone (found o ∷ polls) = poll_until_gone polls
poll_until_gone (not_found o ∷ polls) = gone
poll_until_gone (failed o e ∷ polls) = wait_failed e

abbrev pub wait_if : Option BuilderError → List (Reply Labels) → Waited
wait_if (some e) polls = invalid e
wait_if none polls = poll_until_gone polls

-- WaitUntilDeleted
unfoldable pub wait_until_deleted : ConfigMapBuilder → List (Reply Labels) → Waited
unfolding validate poll_until_gone
wait_until_deleted b polls = wait_if (validate b) polls
