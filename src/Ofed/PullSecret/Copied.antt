-- ===== src/Ofed/PullSecret/Copied.antt =====
-- What EnsureClusterPullSecret leaves in the cluster.
use nvidia_ci.Common.{false, ◌&&◌, ◌≡◌, refl, Option, none, some, Result, ok, err}
use nvidia_ci.Text.{Text, text_eq}
use nvidia_ci.Text.Search.{text_eq_refl}
use nvidia_ci.Text.Labels.{label}
use nvidia_ci.Ofed.PullSecret.Defs.{Codec, SecretError, staging_docker_config_json}
use nvidia_ci.Ofed.PullSecret.Ensure.{
  Secret, Secrets, Faults, EnsureError, Outcome, unless_fault, new_secret, updated_secret, put,
  staging_data, write_secret, with_scoped, with_source, ensure_cluster_pull_secret,
  cluster_pull_secret_name, cluster_pull_secret_namespace, staging_pull_secret_name,
  docker_config_json_key, docker_config_json_type,
}

-- The scoped part of the cluster's pull secret stands in the namespace, and nothing else changed.
pub record IsCopied (codec : Codec) (namespace : Text) (before after : Secrets) : Type 0 where
  pub source : Secret
  pub has_source : before cluster_pull_secret_namespace cluster_pull_secret_name ≡ some source
  pub scoped : Text
  pub is_scoped :
      staging_docker_config_json codec (label docker_config_json_key source.content) ≡ ok scoped
  pub copy : Secret
  pub has_copy : after namespace staging_pull_secret_name ≡ some copy
  pub copied : copy.content ≡ staging_data scoped
  pub kind : copy.kind ≡ docker_config_json_type
  pub others :
      (ns n : Text)
      → (text_eq ns namespace && text_eq n staging_pull_secret_name) ≡ false
      → after ns n ≡ before ns n

abbrev pub Ensures : Codec → Text → Secrets → Outcome → Type 0
Ensures codec namespace before (ok u, after) = IsCopied codec namespace before after
Ensures codec namespace before (err e, after) = after ≡ before

put-IsCopied :
    (codec : Codec) (namespace : Text) (before : Secrets) (source copy : Secret) (scoped : Text)
    → before cluster_pull_secret_namespace cluster_pull_secret_name ≡ some source
    → staging_docker_config_json codec (label docker_config_json_key source.content) ≡ ok scoped
    → copy.content ≡ staging_data scoped
    → copy.kind ≡ docker_config_json_type
    → IsCopied codec namespace before (put namespace staging_pull_secret_name copy before)
unfolding put
put-IsCopied codec namespace before source copy scoped hs hj hc hk = record {
  source = source;
  has_source = hs;
  scoped = scoped;
  is_scoped = hj;
  copy = copy;
  has_copy = rw (text_eq_refl namespace, text_eq_refl staging_pull_secret_name);
  copied = hc;
  kind = hk;
  others = λ ns n e. rw e;
}

unless_fault-Ensures :
    (codec : Codec) (namespace : Text) (before : Secrets) (fault : Option Text)
    (to_error : Text → EnsureError) (next : Outcome)
    → Ensures codec namespace before next
    → Ensures codec namespace before (unless_fault fault to_error before next)
unless_fault-Ensures codec namespace before none to_error next h = h
unless_fault-Ensures codec namespace before (some e) to_error next h = refl

module _ (codec : Codec) (faults : Faults) (namespace : Text) (before : Secrets) (source : Secret)
    (has_source : before cluster_pull_secret_namespace cluster_pull_secret_name ≡ some source) where
  write_secret-Ensures :
      (scoped : Text) (old : Option Secret)
      → staging_docker_config_json codec (label docker_config_json_key source.content) ≡ ok scoped
      → Ensures codec namespace before (write_secret faults namespace scoped old before)
  write_secret-Ensures scoped none hj =
      unless_fault-Ensures codec namespace before
        (faults.on_create namespace staging_pull_secret_name) _ _
        (put-IsCopied codec namespace before source (new_secret scoped) scoped has_source hj refl
          refl)
  write_secret-Ensures scoped (some dst) hj =
      unless_fault-Ensures codec namespace before
        (faults.on_update namespace staging_pull_secret_name) _ _
        (put-IsCopied codec namespace before source (updated_secret dst scoped) scoped has_source hj
          refl refl)

  with_scoped-Ensures :
      (r : Result SecretError Text)
      → staging_docker_config_json codec (label docker_config_json_key source.content) ≡ r
      → Ensures codec namespace before (with_scoped faults namespace r before)
  with_scoped-Ensures (err e) hj = refl
  with_scoped-Ensures (ok scoped) hj =
      unless_fault-Ensures codec namespace before (faults.on_get namespace staging_pull_secret_name)
        _ _ (write_secret-Ensures scoped (before namespace staging_pull_secret_name) hj)

with_source-Ensures :
    (codec : Codec) (faults : Faults) (namespace : Text) (before : Secrets) (source : Option Secret)
    → before cluster_pull_secret_namespace cluster_pull_secret_name ≡ source
    → Ensures codec namespace before (with_source codec faults namespace source before)
with_source-Ensures codec faults namespace before none e = refl
with_source-Ensures codec faults namespace before (some source) e =
    with_scoped-Ensures codec faults namespace before source e
      (staging_docker_config_json codec (label docker_config_json_key source.content)) refl

-- On success the namespace holds the scoped part of the cluster's pull secret under the staging name
-- and every other secret is as before; on an error no secret has changed.
pub ensure_cluster_pull_secret-Ensures :
    (codec : Codec) (faults : Faults) (namespace : Text) (before : Secrets)
    → Ensures codec namespace before (ensure_cluster_pull_secret codec faults namespace before)
unfolding ensure_cluster_pull_secret
ensure_cluster_pull_secret-Ensures codec faults namespace before =
    unless_fault-Ensures codec namespace before
      (faults.on_get cluster_pull_secret_namespace cluster_pull_secret_name) _ _
      (with_source-Ensures codec faults namespace before
        (before cluster_pull_secret_namespace cluster_pull_secret_name) refl)
