-- ===== src/Ofed/PullSecret/Defs.antt =====
-- The docker configuration, its staging part, and the choice of credentials.
use nvidia_ci.Common.{
  Bool, not, List, [], ◌∷◌, ◌++◌, Option, none, some, if◌then◌else◌, is_nil, Result, ok, err,
}
use nvidia_ci.Text.{Text, codes, is_empty, trim_prefix}
use nvidia_ci.Text.Split.{split}
use nvidia_ci.Text.Trim.{equal_fold}
use nvidia_ci.Text.Labels.{lookup}
use nvidia_ci.Ofed.Image.{precompiled_ofed_registry}

pub record DockerAuthEntry : Type 0 where
  pub auth : Text
  pub username : Text
  pub password : Text

-- dockerConfigJSON: the entries of `auths`, in the map's iteration order.
abbrev pub Auths : Type 0
Auths = List (Text × DockerAuthEntry)

-- encoding/json and encoding/base64.
pub record Codec : Type 0 where
  pub unmarshal : Text → Option Auths
  pub marshal : Auths → Option Text
  pub encode_base64 : Text → Text

pub data SecretError : Type 0 where
  no_config bad_config no_staging_credentials encode_failed missing_credentials : SecretError
  client_error : Text → SecretError

abbrev pub first_part : List Text → Text
first_part [] = []
first_part (p ∷ ps) = p

unfoldable pub is_staging_registry_host : Text → Bool
unfolding equal_fold split
is_staging_registry_host auth_key =
    let host = trim_prefix (codes "http://") (trim_prefix (codes "https://") auth_key) in
    equal_fold (first_part (split b'/' host)) precompiled_ofed_registry

-- The loop over the entries; the keys of a map are distinct.
unfoldable pub scoped_auths : Auths → Auths
unfolding is_staging_registry_host
scoped_auths [] = []
scoped_auths ((key, entry) ∷ auths) =
    let rest = scoped_auths auths in
    if is_staging_registry_host key then (key, entry) ∷ rest else rest

abbrev pub marshalled : Option Text → Result SecretError Text
marshalled none = err encode_failed
marshalled (some out) = ok out

abbrev pub scope_config : Codec → Option Auths → Result SecretError Text
scope_config codec none = err bad_config
scope_config codec (some auths) =
    if is_nil (scoped_auths auths)
    then err no_staging_credentials
    else marshalled (codec.marshal (scoped_auths auths))

unfoldable pub staging_docker_config_json : Codec → Text → Result SecretError Text
unfolding scoped_auths
staging_docker_config_json codec raw =
    if is_empty raw then err no_config else scope_config codec (codec.unmarshal raw)

unfoldable pub basic_auth : Codec → DockerAuthEntry → Result SecretError Text
basic_auth codec e =
    if not (is_empty e.auth)
    then ok e.auth
    else if is_empty e.username
    then err missing_credentials
    else ok (codec.encode_base64 (e.username ++ (codes ":" ++ e.password)))

-- stagingRegistryAuthKeys
abbrev pub staging_registry_auth_keys : List Text
staging_registry_auth_keys =
    precompiled_ofed_registry
    ∷ (codes "https://" ++ precompiled_ofed_registry)
    ∷ (codes "https://" ++ (precompiled_ofed_registry ++ codes "/v1"))
    ∷ (codes "https://" ++ (precompiled_ofed_registry ++ codes "/v2/"))
    ∷ []

-- The second loop returns at the first entry of the map.
abbrev pub first_auth : Codec → Auths → Result SecretError Text
first_auth codec [] = err no_staging_credentials
first_auth codec ((key, entry) ∷ auths) = basic_auth codec entry

-- The first loop, over the known keys.
unfoldable pub auth_for_keys : Codec → List Text → Auths → Result SecretError Text
unfolding basic_auth lookup
auth_for_keys codec [] auths = first_auth codec auths
auth_for_keys codec (key ∷ keys) auths = elim (lookup key auths) [
  | some entry ↦ basic_auth codec entry
  | none ↦ auth_for_keys codec keys auths
]

abbrev pub auth_of_scoped : Codec → List Text → Option Auths → Result SecretError Text
auth_of_scoped codec keys none = err bad_config
auth_of_scoped codec keys (some auths) = auth_for_keys codec keys auths

abbrev pub auth_of_config : Codec → List Text → Result SecretError Text → Result SecretError Text
auth_of_config codec keys (err e) = err e
auth_of_config codec keys (ok scoped) = auth_of_scoped codec keys (codec.unmarshal scoped)

-- dockerAuthFromSecret; `config` is the secret's entry .dockerconfigjson.
unfoldable pub docker_auth_from_secret : Codec → Option Text → List Text → Result SecretError Text
unfolding staging_docker_config_json auth_for_keys
docker_auth_from_secret codec none keys = err no_config
docker_auth_from_secret codec (some raw) keys =
    auth_of_config codec keys (staging_docker_config_json codec raw)
