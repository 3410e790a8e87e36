-- ===== src/Registry/Site.antt =====
-- What the two clients differ in, and what they take from Go's library: url.Parse, encoding/json,
-- encoding/base64 and url.QueryEscape are parameters.
use nvidia_ci.Common.{Bool, false, ◌||◌, List, [], ◌++◌, Option, none, some, if◌then◌else◌}
use nvidia_ci.Text.{Text, codes, text_eq}
use nvidia_ci.Ofed.Image.{precompiled_ofed_registry}

-- The parts of a parsed URL that are read.
pub record Url : Type 0 where
  pub scheme : Text
  pub hostname : Text

pub record TokenReply : Type 0 where
  pub token : Text
  pub access_token : Text

pub record Library : Type 0 where
  pub parse_url : Text → Option Url
  pub query_escape : Text → Text
  pub decode_base64 : Text → Option Text
  pub decode_tags : Text → Option (List Text)
  pub decode_token : Text → Option TokenReply

pub record Site : Type 0 where
  pub registry : Text
  pub repository : Text
  pub user_agent : Text  -- "" if the header is not set
  pub is_auth_host : Text → Bool

-- `https`, and a host that the test admits.
unfoldable pub validate_url : Library → (Text → Bool) → Text → Bool
validate_url lib admits raw_url = elim (lib.parse_url raw_url) [
  | none ↦ false
  | some parsed ↦ if text_eq parsed.scheme (codes "https") then admits parsed.hostname else false
]

-- validateStagingAuthURL, with the site's hosts for tokens
abbrev pub validate_auth_url : Library → Site → Text → Bool
validate_auth_url lib site = validate_url lib site.is_auth_host

-- validateStagingRegistryURL
abbrev pub validate_registry_url : Library → Site → Text → Bool
validate_registry_url lib site = validate_url lib (text_eq site.registry)

abbrev pub https_registry : Site → Text
https_registry site = codes "https://" ++ site.registry

abbrev pub sso_host : Text
sso_host = codes "sso.redhat.com"

abbrev pub catalog_user_agent : Text
catalog_user_agent = codes "nvidia-ci-precompiled-ofed"

-- The hosts of validateStagingAuthURL.
unfoldable pub is_staging_auth_host : Text → Bool
is_staging_auth_host host = text_eq precompiled_ofed_registry host || text_eq sso_host host

unfoldable pub staging_site : Text → Site
staging_site repository = record {
  registry = precompiled_ofed_registry;
  repository = repository;
  user_agent = catalog_user_agent;
  is_auth_host = is_staging_auth_host;
}

abbrev pub precompiled_registry : Text
precompiled_registry = codes "registry.redhat.io"

abbrev pub precompiled_repository : Text
precompiled_repository = codes "nvidia/gpu-driver-rhel9"

-- allowedRegistryHosts
unfoldable pub is_allowed_registry_host : Text → Bool
is_allowed_registry_host host = text_eq precompiled_registry host

unfoldable pub driver_site : Site
driver_site = record {
  registry = precompiled_registry;
  repository = precompiled_repository;
  user_agent = [];
  is_auth_host = is_allowed_registry_host;
}
