-- ===== src/Cluster/Csv.antt =====
-- pkg/olm/clusterserviceversion.go: the ClusterServiceVersion builder.
use nvidia_ci.Common.{
  Bool, true, false, [], Option, none, some, if◌then◌else◌, Result, ok, err, ◌>>=◌,
}
use nvidia_ci.Text.{Text, codes, text_eq, is_empty}
use nvidia_ci.Text.Labels.{Labels, lookup}
use nvidia_ci.Cluster.Api.{
  Object, Reply, not_found, reply_object, seems_there, Client, Builder, BuilderError, message,
  does_not_exist, api_error,
}
use nvidia_ci.Cluster.Crd.{Kind, checked}

-- The annotations and Status.Phase.
pub record Csv : Type 0 where
  pub annotations : Labels
  pub phase : Text

abbrev pub CsvBuilder : Type 0
CsvBuilder = Builder Csv

abbrev pub csv_kind : Kind
csv_kind = record { name = codes "ClusterServiceVersion"; crd_name = codes "ClusterServiceVersion" }

-- validate
abbrev pub checked_csv : CsvBuilder → CsvBuilder
checked_csv = checked csv_kind

-- GetAnnotations and Status.Phase of the object; the typed client's Get returns an object, an empty
-- one, beside every error.
abbrev pub csv_of : Option (Object Csv) → Csv
csv_of none = record { annotations = []; phase = [] }
csv_of (some o) = o.payload

module _ (c : Client Csv) where
  open c use {World, get, delete}

  abbrev pub lookup_csv : Option (Object Csv) → World → Reply Csv
  lookup_csv none w = not_found none
  lookup_csv (some d) w = get d.namespace d.name w

  abbrev pub csv_exists_if : Bool → CsvBuilder → World → Bool × CsvBuilder
  csv_exists_if false b w = (false, b)
  csv_exists_if true b w = (
    seems_there (lookup_csv b.definition w),
    record b { object = reply_object (lookup_csv b.definition w) },
  )

  -- Exists
  unfoldable pub csv_exists : CsvBuilder → World → Bool × CsvBuilder
  unfolding checked
  csv_exists b w = csv_exists_if (is_empty (checked_csv b).error_msg) (checked_csv b) w

  abbrev pub csv_pulled : Bool × CsvBuilder → Result BuilderError CsvBuilder
  csv_pulled (false, b) = err does_not_exist
  csv_pulled (true, b) = ok (record b { definition = b.object })

  -- PullClusterServiceVersion: an empty name or namespace makes Exists say no.
  unfoldable pub pull_csv : Text → Text → World → Result BuilderError CsvBuilder
  unfolding csv_exists
  pull_csv name namespace w = csv_pulled (
      csv_exists
        record {
          definition = some (record { name = name; namespace = namespace; payload = csv_of none });
          object = none;
          error_msg =
              if is_empty namespace
              then codes "clusterserviceversion 'namespace' cannot be empty"
              else if is_empty name
              then codes "clusterserviceversion 'name' cannot be empty"
              else [];
          has_client = true;
        }
        w)

  -- The builder, the error and the world behind a call.
  abbrev pub CsvOutcome : Type 0
  CsvOutcome = CsvBuilder × Option BuilderError × World

  abbrev pub csv_deleted : CsvBuilder → Option Text × World → CsvOutcome
  csv_deleted b (some e, w) = (b, some (api_error e), w)
  csv_deleted b (none, w) = (record b { object = none }, none, w)

  abbrev pub call_delete_csv :
      Option (Object Csv) → Option (Object Csv) → World → Option Text × World
  call_delete_csv (some d) (some o) w = delete d.namespace o.name w
  call_delete_csv (some d) none w = delete d.namespace [] w
  call_delete_csv none o w = (none, w)

  abbrev pub delete_csv_when : Bool × CsvBuilder → World → CsvOutcome
  delete_csv_when (false, b) w = (b, none, w)
  delete_csv_when (true, b) w = csv_deleted b (call_delete_csv b.definition b.object w)

  abbrev pub delete_csv_if : Bool → CsvBuilder → World → CsvOutcome
  delete_csv_if false b w = (b, some (message b.error_msg), w)
  delete_csv_if true b w = delete_csv_when (csv_exists b w) w

  -- Delete
  unfoldable pub delete_csv : CsvBuilder → World → CsvOutcome
  unfolding csv_exists
  delete_csv b w = delete_csv_if (is_empty (checked_csv b).error_msg) (checked_csv b) w

  abbrev pub examples_of : Option Text → Result BuilderError Text
  examples_of none = err (message (codes "alm-examples not found in given clusterserviceversion"))
  examples_of (some example) = ok example

  abbrev pub examples_when : Bool × CsvBuilder → Result BuilderError Text
  examples_when (false, b) = examples_of none
  examples_when (true, b) =
      examples_of (lookup (codes "alm-examples") (csv_of b.object).annotations)

  -- GetAlmExamples
  unfoldable pub alm_examples : CsvBuilder → World → Result BuilderError Text
  unfolding csv_exists lookup
  alm_examples b w =
      if is_empty (checked_csv b).error_msg
      then examples_when (csv_exists (checked_csv b) w)
      else err (message (checked_csv b).error_msg)

  abbrev pub phase_when : Bool × CsvBuilder → Result BuilderError Text
  phase_when (false, b) = err does_not_exist
  phase_when (true, b) = ok (csv_of b.object).phase

  -- GetPhase
  unfoldable pub csv_phase : CsvBuilder → World → Result BuilderError Text
  unfolding csv_exists
  csv_phase b w =
      if is_empty (checked_csv b).error_msg
      then phase_when (csv_exists (checked_csv b) w)
      else err (message (checked_csv b).error_msg)

  -- IsSuccessful
  unfoldable pub csv_is_successful : CsvBuilder → World → Result BuilderError Bool
  unfolding csv_phase text_eq
  csv_is_successful b w = csv_phase b w >>= (λ phase. ok (text_eq phase (codes "Succeeded")))
