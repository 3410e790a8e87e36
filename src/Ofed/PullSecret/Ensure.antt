-- ===== src/Ofed/PullSecret/Ensure.antt =====
-- EnsureClusterPullSecret of pkg/nvidianetwork/pullsecret.go over the cluster's secrets.
use nvidia_ci.Common.{◌&&◌, [], ◌∷◌, Option, none, some, if◌then◌else◌, Result, ok, err}
use nvidia_ci.Text.{Text, codes, text_eq}
use nvidia_ci.Text.Labels.{Labels, label}
use nvidia_ci.Ofed.PullSecret.Defs.{Codec, SecretError, staging_docker_config_json}

abbrev pub cluster_pull_secret_name : Text
cluster_pull_secret_name = codes "pull-secret"

abbrev pub staging_pull_secret_name : Text
staging_pull_secret_name = codes "ofed-staging-pull-secret"

abbrev pub cluster_pull_secret_namespace : Text
cluster_pull_secret_namespace = codes "openshift-config"

abbrev pub docker_config_json_key : Text
docker_config_json_key = codes ".dockerconfigjson"

abbrev pub docker_config_json_type : Text
docker_config_json_type = codes "kubernetes.io/dockerconfigjson"

-- `meta` stands for the fields that are carried along.
pub record Secret : Type 0 where
  pub meta : Labels
  pub kind : Text  -- Type
  pub content : Labels  -- Data

-- The secrets by namespace and name.
abbrev pub Secrets : Type 0
Secrets = Text → Text → Option Secret

-- The calls that may fail for a reason of the cluster's own, each by namespace and name.
pub record Faults : Type 0 where
  pub on_get : Text → Text → Option Text
  pub on_create : Text → Text → Option Text
  pub on_update : Text → Text → Option Text

pub data EnsureError : Type 0 where
  read_failed get_failed create_failed update_failed : Text → EnsureError
  source_missing : EnsureError
  secret_error : SecretError → EnsureError

unfoldable pub put : Text → Text → Secret → Secrets → Secrets
put namespace name secret secrets =
    λ ns n. if text_eq ns namespace && text_eq n name then some secret else secrets ns n

abbrev pub staging_data : Text → Labels
staging_data scoped = (docker_config_json_key, scoped) ∷ []

abbrev pub Outcome : Type 0
Outcome = Result EnsureError (Unit {0}) × Secrets

-- A call that fails ends the function with its error, and changes nothing.
abbrev pub unless_fault : Option Text → (Text → EnsureError) → Secrets → Outcome → Outcome
unless_fault none to_error secrets next = next
unless_fault (some e) to_error secrets next = (err (to_error e), secrets)

-- The secret that is created, and the existing one with its type and data replaced.
abbrev pub new_secret : Text → Secret
new_secret scoped = record {
  meta = [];
  kind = docker_config_json_type;
  content = staging_data scoped;
}

abbrev pub updated_secret : Secret → Text → Secret
updated_secret dst scoped = record dst {
  kind = docker_config_json_type;
  content = staging_data scoped;
}

-- What follows the second Get.
abbrev pub write_secret : Faults → Text → Text → Option Secret → Secrets → Outcome
write_secret faults namespace scoped none secrets =
    unless_fault (faults.on_create namespace staging_pull_secret_name) create_failed secrets
      (ok tt, put namespace staging_pull_secret_name (new_secret scoped) secrets)
write_secret faults namespace scoped (some dst) secrets =
    unless_fault (faults.on_update namespace staging_pull_secret_name) update_failed secrets
      (ok tt, put namespace staging_pull_secret_name (updated_secret dst scoped) secrets)

abbrev pub with_scoped : Faults → Text → Result SecretError Text → Secrets → Outcome
with_scoped faults namespace (err e) secrets = (err (secret_error e), secrets)
with_scoped faults namespace (ok scoped) secrets =
    unless_fault (faults.on_get namespace staging_pull_secret_name) get_failed secrets
      (write_secret faults namespace scoped (secrets namespace staging_pull_secret_name) secrets)

abbrev pub with_source : Codec → Faults → Text → Option Secret → Secrets → Outcome
with_source codec faults namespace none secrets = (err source_missing, secrets)
with_source codec faults namespace (some src) secrets =
    with_scoped faults namespace
      (staging_docker_config_json codec (label docker_config_json_key src.content)) secrets

unfoldable pub ensure_cluster_pull_secret : Codec → Faults → Text → Secrets → Outcome
unfolding put staging_docker_config_json
ensure_cluster_pull_secret codec faults namespace secrets =
    unless_fault (faults.on_get cluster_pull_secret_namespace cluster_pull_secret_name) read_failed
      secrets
      (with_source codec faults namespace
        (secrets cluster_pull_secret_namespace cluster_pull_secret_name) secrets)
