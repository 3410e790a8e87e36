-- ===== src/Wait/Created.antt =====
-- internal/wait/wait.go: CSVSucceeded and DeploymentCreated.
pub mod Early
use nvidia_ci.Common.{Bool, true, false, List, Option, none, some, if◌then◌else◌, Result, ok, err}
use nvidia_ci.Text.{Text, codes, text_eq}
use nvidia_ci.Cluster.Api.{Client, Builder, BuilderError, does_not_exist}
use nvidia_ci.Cluster.Csv.{Csv, CsvBuilder, pull_csv}
use nvidia_ci.Cluster.Deployment.{deployment_exists, pull_deployment}
use nvidia_ci.Wait.Poll.{Step, go_on, done, stop, Ended, reached, timed_out, stopped, poll}
use nvidia_ci.Wait.Ready.{Failure, pull_error, nil_pointer, done_if}

abbrev pub csv_step : Result BuilderError CsvBuilder → Step Failure
csv_step (err e) = stop (pull_error e)
csv_step (ok b) = elim b.object [
  | none ↦ stop nil_pointer
  | some o ↦ done_if (text_eq o.payload.phase (codes "Succeeded"))
]

-- CSVSucceeded; the polls are the worlds in which the condition pulls.
unfoldable pub csv_succeeded : (c : Client Csv) → Text → Text → List c.World → Ended Failure
unfolding pull_csv text_eq
csv_succeeded c name namespace polls = poll (λ w. csv_step (pull_csv c name namespace w)) polls

module _ {P : Type 0} (c : Client P) (no_spec : P) where
  -- Only a NotFound lets the wait go on.
  abbrev pub deployment_step : Result BuilderError (Builder P) → c.World → Step BuilderError
  deployment_step (err does_not_exist) w = go_on
  deployment_step (err e) w = stop e
  deployment_step (ok b) w = if (deployment_exists c b w).0 then done else go_on

  abbrev pub is_reached : Ended BuilderError → Bool
  is_reached reached = true
  is_reached timed_out = false
  is_reached (stopped e) = false

  -- DeploymentCreated; the typed client's Get returns an object beside every error.
  unfoldable pub deployment_created : Text → Text → List c.World → Bool
  unfolding pull_deployment deployment_exists
  deployment_created name namespace polls =
      is_reached (poll (λ w. deployment_step (pull_deployment c no_spec name namespace w) w) polls)
