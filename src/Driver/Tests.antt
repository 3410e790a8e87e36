-- ===== src/Driver/Tests.antt =====
-- A discovery of driver versions on a concrete registry.
use nvidia_ci.Common.{◌≡◌, refl, List, [], ◌∷◌, Option, some, ok}
use nvidia_ci.Text.{Text, codes}
use nvidia_ci.Registry.Client.{Server, Response, Credentials, anonymous, basic, bearer}
use nvidia_ci.Registry.Tests.{test_library}
use nvidia_ci.Driver.Dedup.{deduplicate_by_major_version}
use nvidia_ci.Driver.Dedup.Laws.{IsDedup, deduplicate_by_major_version-IsDedup}
use nvidia_ci.Driver.Discover.{discover, list_driver_tags}
use nvidia_ci.Driver.Discover.Versions.{Discovered, discover-Discovered}

deduplicate_by_major_version-IsDedup_example :
    IsDedup
      (codes "580.95" ∷ codes "570.1" ∷ codes "580.105.08" ∷ [])
      (deduplicate_by_major_version (codes "580.95" ∷ codes "570.1" ∷ codes "580.105.08" ∷ []))
deduplicate_by_major_version-IsDedup_example =
    deduplicate_by_major_version-IsDedup (codes "580.95" ∷ codes "570.1" ∷ codes "580.105.08" ∷ [])

abbrev answer_to : Credentials → Response
answer_to anonymous = record {
  status = 401;
  www_authenticate = codes "Bearer realm=\"https://registry.redhat.io/auth\"";
  link = [];
  body = [];
}
answer_to (basic user password) = record {
  status = 200;
  www_authenticate = [];
  link = [];
  body = codes "t";
}
answer_to (bearer token) = record {
  status = 200;
  www_authenticate = [];
  link = [];
  body = codes "580.95-k-rhel9,580.105.08-k-rhel9,570.1-k-rhel9,590.1-k-source,560.1-j-rhel9";
}

abbrev driver_server : Server
driver_server log req = ok (answer_to req.credentials)

abbrev decode_secret : Text → Option (List (Text × Text))
decode_secret raw = some ((codes "registry.redhat.io", raw) ∷ [])

discovered :
    discover 2 test_library decode_secret driver_server (ok (codes "u:p")) (codes "k")
    ≡ ok (codes "570.1" ∷ codes "580.105.08" ∷ [])
unfolding discover nvidia_ci.Text.Labels.lookup test_library
    nvidia_ci.Registry.Header.parse_www_authenticate nvidia_ci.Text.trim_prefix
    nvidia_ci.Text.Trim.trim_space nvidia_ci.Registry.Site.validate_url
    nvidia_ci.Registry.Site.driver_site nvidia_ci.Registry.Site.is_allowed_registry_host
    nvidia_ci.Registry.Header.next_registry_page_url nvidia_ci.Text.Search.contains
    nvidia_ci.Text.has_suffix deduplicate_by_major_version
discovered = refl

discover-Discovered_example :
    (auth : Text) × (tags : List Text) × (list_driver_tags 2 test_library driver_server auth
      ≡ ok tags)
    × Discovered (codes "k") tags (codes "570.1" ∷ codes "580.105.08" ∷ [])
discover-Discovered_example =
    discover-Discovered 2 test_library decode_secret driver_server (ok (codes "u:p")) (codes "k")
      (codes "570.1" ∷ codes "580.105.08" ∷ []) discovered
