-- ===== src/Cluster/Deployment.antt =====
-- pkg/deployment/deployment.go: Pull, Exists and validate of the deployment builder.
pub mod Calls
use nvidia_ci.Common.{Bool, true, false, [], Option, none, some, if◌then◌else◌, Result, ok, err}
use nvidia_ci.Text.{Text, is_empty}
use nvidia_ci.Cluster.Api.{
  Object, Reply, reply_object, seems_there, Client, Builder, BuilderError, undefined, no_client,
  message, empty_name, empty_namespace, does_not_exist,
}

-- What validate says of the client and of the message.
abbrev pub deployment_error : Bool → Text → Option BuilderError
deployment_error false error_msg = some no_client
deployment_error true error_msg = if is_empty error_msg then none else some (message error_msg)

-- validate: the error, if the builder is not valid
abbrev pub validate_deployment : {P : Type 0} → Builder P → Option BuilderError
validate_deployment b = elim b.definition [
  | none ↦ some undefined
  | some d ↦ deployment_error b.has_client b.error_msg
]

module _ {P : Type 0} (c : Client P) where
  open c use {World, get}

  abbrev pub deployment_found : Reply P → Builder P → Bool × Builder P
  deployment_found r b = (seems_there r, record b { object = reply_object r })

  abbrev pub deployment_exists_if :
      Option (Object P) → Option BuilderError → Builder P → World → Bool × Builder P
  deployment_exists_if none e b w = (false, b)
  deployment_exists_if (some d) (some e) b w = (false, b)
  deployment_exists_if (some d) none b w = deployment_found (get d.namespace d.name w) b

  -- Exists
  unfoldable pub deployment_exists : Builder P → World → Bool × Builder P
  deployment_exists b w = deployment_exists_if b.definition (validate_deployment b) b w

  -- The error of Pull for a missing deployment is a NotFound.
  abbrev pub deployment_pulled : Bool × Builder P → Result BuilderError (Builder P)
  deployment_pulled (false, b) = err does_not_exist
  deployment_pulled (true, b) = ok (record b { definition = b.object })

  -- Pull with a client that is not nil
  unfoldable pub pull_deployment : P → Text → Text → World → Result BuilderError (Builder P)
  unfolding deployment_exists
  pull_deployment no_spec name nsname w =
      if is_empty name
      then err empty_name
      else if is_empty nsname
      then err empty_namespace
      else deployment_pulled (
          deployment_exists
            record {
              definition = some (record { name = name; namespace = nsname; payload = no_spec });
              object = none;
              error_msg = [];
              has_client = true;
            }
            w)
