-- ===== src/Driver/Discover/Defs.antt =====
-- The loop over the tags, and the function around it.
use nvidia_ci.Common.{
  ℕ, zero, suc, not, List, [], ◌∷◌, ◌++◌, Option, none, some, if◌then◌else◌, take, any, is_nil,
  Result, ok, err,
}
use nvidia_ci.Text.{Text, codes, text_eq, has_suffix}
use nvidia_ci.Text.Search.{contains, index}
use nvidia_ci.Text.Labels.{lookup}
use nvidia_ci.Registry.Site.{Library, precompiled_registry, driver_site}
use nvidia_ci.Registry.Client.{Server, RegistryError}
use nvidia_ci.Registry.Tags.{list_registry_tags}
use nvidia_ci.Driver.Dedup.{deduplicate_by_major_version}

-- `tag[:idx]` for a positive idx
abbrev pub before_dash : Text → Option ℕ → Option Text
before_dash tag none = none
before_dash tag (some zero) = none
before_dash tag (some (suc i)) = some (take (suc i) tag)

-- The driver version in front of the kernel, unless the tag is skipped.
unfoldable pub version_of : Text → Text → Option Text
version_of kernel_version tag =
    if not (contains kernel_version tag)
    then none
    else if has_suffix (codes "-source") tag
    then none
    else before_dash tag (index (codes "-" ++ kernel_version) tag)

abbrev pub note_version : Option Text → List Text → List Text
note_version none versions = versions
note_version (some version) versions =
    if any (λ v. text_eq v version) versions then versions else versions ++ version ∷ []

-- The loop; `seen` holds exactly the versions noted so far.
unfoldable pub collect_versions : Text → List Text → List Text → List Text
unfolding version_of
collect_versions kernel_version [] versions = versions
collect_versions kernel_version (tag ∷ tags) versions =
    collect_versions kernel_version tags (note_version (version_of kernel_version tag) versions)

pub data DiscoverError : Type 0 where
  secret_unreadable : Text → DiscoverError
  bad_secret no_credentials no_images : DiscoverError
  registry_error : RegistryError → DiscoverError

abbrev pub versions_of_tags : Text → List Text → Result DiscoverError (List Text)
versions_of_tags kernel_version tags =
    let versions = collect_versions kernel_version tags [] in
    if is_nil versions then err no_images else ok (deduplicate_by_major_version versions)

abbrev pub from_listing : Text → Result RegistryError (List Text) → Result DiscoverError (List Text)
from_listing kernel_version (err e) = err (registry_error e)
from_listing kernel_version (ok tags) = versions_of_tags kernel_version tags

-- listRegistryTags
abbrev pub list_driver_tags : ℕ → Library → Server → Text → Result RegistryError (List Text)
list_driver_tags rounds lib server auth =
    (list_registry_tags rounds lib driver_site server auth []).0

abbrev pub with_auth : ℕ → Library → Server → Text → Option Text → Result DiscoverError (List Text)
with_auth rounds lib server kernel_version none = err no_credentials
with_auth rounds lib server kernel_version (some auth) =
    from_listing kernel_version (list_driver_tags rounds lib server auth)

abbrev pub with_config :
    ℕ → Library → Server → Text → Option (List (Text × Text)) → Result DiscoverError (List Text)
with_config rounds lib server kernel_version none = err bad_secret
with_config rounds lib server kernel_version (some auths) =
    with_auth rounds lib server kernel_version (lookup precompiled_registry auths)

-- `secret` is the cluster's answer for the pull secret, with the bytes of .dockerconfigjson;
-- `decode` reads the credentials by registry from them.
unfoldable pub discover :
    ℕ
    → Library
    → (Text → Option (List (Text × Text)))
    → Server
    → Result Text Text
    → Text
    → Result DiscoverError (List Text)
unfolding collect_versions list_registry_tags
discover rounds lib decode server (err e) kernel_version = err (secret_unreadable e)
discover rounds lib decode server (ok raw) kernel_version =
    with_config rounds lib server kernel_version (decode raw)
