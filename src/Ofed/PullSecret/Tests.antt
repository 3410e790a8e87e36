-- ===== src/Ofed/PullSecret/Tests.antt =====
-- The copy of a pull secret with two registries, by a small codec.
use nvidia_ci.Common.{
  Has, ◌↔◌, zero, suc, ◌≡◌, refl, [], ◌∷◌, ◌++◌, Option, none, some, ok, take, drop, length,
  if◌then◌else◌, ◌&&◌,
}
use nvidia_ci.Text.{Text, codes, text_eq}
use nvidia_ci.Ofed.PullSecret.Defs.{Auths, DockerAuthEntry, Codec}
use nvidia_ci.Ofed.PullSecret.Ensure.{Secrets, Faults, ensure_cluster_pull_secret}
use nvidia_ci.Ofed.PullSecret.Copied.{Ensures, ensure_cluster_pull_secret-Ensures}

abbrev entry : DockerAuthEntry
entry = record { auth = codes "u:p"; username = []; password = [] }

abbrev staging_only : Auths
staging_only = (codes "registry.stage.redhat.io", entry) ∷ []

abbrev two_registries : Auths
two_registries = (codes "quay.io", entry) ∷ staging_only

-- A leading 1 stands for both registries; behind a 0 stands one entry, with the lengths of its texts.
abbrev read_config : Text → Option Auths
read_config (zero ∷ k ∷ a ∷ u ∷ t) = some (
    (
      take k t,
      record {
        auth = take a (drop k t);
        username = take u (drop a (drop k t));
        password = drop u (drop a (drop k t));
      },
    )
    ∷ [])
read_config (suc n ∷ t) = some two_registries
read_config _ = none

abbrev write_config : Auths → Option Text
write_config ((k, e) ∷ []) = some (
    0
    ∷ length k
    ∷ length e.auth
    ∷ length e.username
    ∷ (k ++ (e.auth ++ (e.username ++ e.password))))
write_config _ = none

abbrev pub codec : Codec
codec = record { unmarshal = read_config; marshal = write_config; encode_base64 = λ t. t }

Read : Auths → Text → Type 0
Read auths text =
    (read : Auths) × (read_config text ≡ some read)
    × ((key : Text) (e : DockerAuthEntry) → Has (key, e) read ↔ Has (key, e) auths)

abbrev scoped_text : Text
scoped_text = 0 ∷ 24 ∷ 3 ∷ 0 ∷ (codes "registry.stage.redhat.io" ++ codes "u:p")

abbrev cluster_secrets : Secrets
cluster_secrets ns n =
    if text_eq ns (codes "openshift-config") && text_eq n (codes "pull-secret")
    then some (record { meta = []; kind = []; content = (codes ".dockerconfigjson", 1 ∷ []) ∷ [] })
    else none

abbrev no_faults : Faults
no_faults = record { on_get = λ ns n. none; on_create = λ ns n. none; on_update = λ ns n. none }

ensured :
    (ensure_cluster_pull_secret codec no_faults (codes "nvidia-network-operator") cluster_secrets).0
    ≡ ok tt
unfolding ensure_cluster_pull_secret nvidia_ci.Text.Labels.label nvidia_ci.Text.trim_prefix
ensured = refl

ensure_cluster_pull_secret-Ensures_example :
    Ensures codec
      (codes "nvidia-network-operator")
      cluster_secrets
      (ensure_cluster_pull_secret codec no_faults (codes "nvidia-network-operator") cluster_secrets)
ensure_cluster_pull_secret-Ensures_example =
    ensure_cluster_pull_secret-Ensures codec no_faults (codes "nvidia-network-operator")
      cluster_secrets
