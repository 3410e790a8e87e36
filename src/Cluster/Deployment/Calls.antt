-- ===== src/Cluster/Deployment/Calls.antt =====
-- pkg/deployment/deployment.go: the calls of the cluster and the waits, over a deployment's status.
pub mod Rollout
mod Tests
use nvidia_ci.Common.{
  ℕ, Bool, true, false, ◌&&◌, any, List, [], ◌∷◌, Option, none, some, if◌then◌else◌, Result, ok,
  err, ltb, ◌==◌,
}
use nvidia_ci.Text.{Text, codes, text_eq}
use nvidia_ci.Cluster.Api.{
  Object, Reply, found, not_found, failed, Client, Builder, BuilderError, does_not_exist, api_error,
}
use nvidia_ci.Cluster.Deployment.{validate_deployment, deployment_exists}
use nvidia_ci.Wait.Poll.{Step, go_on, done, stop, Ended, reached, timed_out, stopped, poll}

-- The status: the replicas, those that are ready, and the conditions with their statuses. The counts of
-- the API are not negative.
pub record Status : Type 0 where
  pub replicas : ℕ
  pub ready_replicas : ℕ
  pub conditions : List (Text × Text)

abbrev pub DeploymentBuilder : Type 0
DeploymentBuilder = Builder Status

-- ReadyReplicas > 0 and Replicas == ReadyReplicas
abbrev pub is_rolled_out : Status → Bool
is_rolled_out s = ltb 0 s.ready_replicas && (s.replicas == s.ready_replicas)

-- The condition of IsReady on the answer to Get.
abbrev pub rollout_step : Reply Status → Step Text
rollout_step (found o) = if is_rolled_out o.payload then done else go_on
rollout_step (not_found o) = stop (codes "not found")
rollout_step (failed o e) = stop e

-- The condition of DeleteAndWait.
abbrev pub removal_step : Reply Status → Step Text
removal_step (found o) = go_on
removal_step (not_found o) = done
removal_step (failed o e) = go_on

abbrev pub has_condition : Text → Status → Bool
has_condition condition s =
    any (λ (c : Text × Text). text_eq c.0 condition && text_eq c.1 (codes "True")) s.conditions

-- The condition of WaitUntilCondition.
abbrev pub condition_step : Text → Reply Status → Step Text
condition_step condition (found o) = if has_condition condition o.payload then done else go_on
condition_step condition (not_found o) = go_on
condition_step condition (failed o e) = go_on

abbrev pub ends_well : Ended Text → Bool
ends_well reached = true
ends_well timed_out = false
ends_well (stopped e) = false

module _ (c : Client Status) where
  open c use {World, create, update, delete}

  -- The builder, the error and the world behind a call.
  abbrev pub Outcome : Type 0
  Outcome = DeploymentBuilder × Option BuilderError × World

  abbrev pub call_create : Option (Object Status) → World → Result Text (Object Status) × World
  call_create none w = (err [], w)
  call_create (some d) w = create d w

  abbrev pub call_update : Option (Object Status) → World → Result Text (Object Status) × World
  call_update none w = (err [], w)
  call_update (some d) w = update d w

  -- What a failed call leaves in Object is left out.
  abbrev pub written : DeploymentBuilder → Result Text (Object Status) × World → Outcome
  written b (ok o, w) = (record b { object = some o }, none, w)
  written b (err e, w) = (b, some (api_error e), w)

  abbrev pub create_unless : Bool × DeploymentBuilder → World → Outcome
  create_unless (true, b) w = (b, none, w)
  create_unless (false, b) w = written b (call_create b.definition w)

  abbrev pub create_if : Option BuilderError → DeploymentBuilder → World → Outcome
  create_if (some e) b w = (b, some e, w)
  create_if none b w = create_unless (deployment_exists c b w) w

  -- Create
  unfoldable pub create_deployment : DeploymentBuilder → World → Outcome
  unfolding deployment_exists
  create_deployment b w = create_if (validate_deployment b) b w

  abbrev pub update_if : Option BuilderError → DeploymentBuilder → World → Outcome
  update_if (some e) b w = (b, some e, w)
  update_if none b w = written b (call_update b.definition w)

  -- Update
  unfoldable pub update_deployment : DeploymentBuilder → World → Outcome
  update_deployment b w = update_if (validate_deployment b) b w

  abbrev pub deleted : DeploymentBuilder → Option Text × World → Outcome
  deleted b (some e, w) = (b, some (api_error e), w)
  deleted b (none, w) = (record b { object = none }, none, w)

  -- The definition's namespace with the object's name; a typed client's Get returns an object, an empty
  -- one, beside every error.
  abbrev pub call_delete :
      Option (Object Status) → Option (Object Status) → World → Option Text × World
  call_delete none o w = (none, w)
  call_delete (some d) none w = delete d.namespace [] w
  call_delete (some d) (some o) w = delete d.namespace o.name w

  abbrev pub delete_when : Bool × DeploymentBuilder → World → Outcome
  delete_when (false, b) w = (record b { object = none }, none, w)
  delete_when (true, b) w = deleted b (call_delete b.definition b.object w)

  abbrev pub delete_if : Option BuilderError → DeploymentBuilder → World → Outcome
  delete_if (some e) b w = (b, some e, w)
  delete_if none b w = delete_when (deployment_exists c b w) w

  -- Delete
  unfoldable pub delete_deployment : DeploymentBuilder → World → Outcome
  unfolding deployment_exists
  delete_deployment b w = delete_if (validate_deployment b) b w

  -- IsReady; the polls are the answers to Get behind Exists, which asks validate too.
  unfoldable pub deployment_is_ready : DeploymentBuilder → World → List (Reply Status) → Bool
  unfolding deployment_exists
  deployment_is_ready b w polls =
      if (deployment_exists c b w).0 then ends_well (poll rollout_step polls) else false

  abbrev pub ready_behind : Outcome → List (Reply Status) → Result BuilderError DeploymentBuilder
  ready_behind (b, some e, w) polls = err e
  ready_behind (b, none, w) polls =
      if deployment_is_ready b w polls then ok b else err does_not_exist

  -- CreateAndWaitUntilReady; what IsReady leaves in Object is left out, and `does_not_exist` is the error
  -- of a deployment that is not ready.
  unfoldable pub create_and_wait_until_ready :
      DeploymentBuilder → World → List (Reply Status) → Result BuilderError DeploymentBuilder
  unfolding create_deployment deployment_is_ready
  create_and_wait_until_ready b w polls = ready_behind (create_deployment b w) polls

  abbrev pub removed_behind : Outcome → List (Reply Status) → Result BuilderError (Ended Text)
  removed_behind (b, some e, w) polls = err e
  removed_behind (b, none, w) polls = ok (poll removal_step polls)

  -- DeleteAndWait
  unfoldable pub delete_deployment_and_wait :
      DeploymentBuilder → World → List (Reply Status) → Result BuilderError (Ended Text)
  unfolding delete_deployment
  delete_deployment_and_wait b w polls = removed_behind (delete_deployment b w) polls

  abbrev pub wait_if :
      Text
      → Option BuilderError
      → DeploymentBuilder
      → World
      → List (Reply Status)
      → Result BuilderError (Ended Text)
  wait_if condition (some e) b w polls = err e
  wait_if condition none b w polls =
      if (deployment_exists c b w).0
      then ok (poll (condition_step condition) polls)
      else err does_not_exist

  -- WaitUntilCondition
  unfoldable pub wait_until_condition :
      Text → DeploymentBuilder → World → List (Reply Status) → Result BuilderError (Ended Text)
  unfolding deployment_exists text_eq
  wait_until_condition condition b w polls = wait_if condition (validate_deployment b) b w polls
