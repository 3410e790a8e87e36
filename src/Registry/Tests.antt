-- ===== src/Registry/Tests.antt =====
-- A registry with two pages of tags behind a token, and runs of the listing against it.
use nvidia_ci.Common.{Option, ◌≡◌, refl, List, [], ◌∷◌, none, some, arith, if◌then◌else◌, ok}
use nvidia_ci.Text.{Text, codes, is_empty, strip_prefix}
use nvidia_ci.Text.Search.{cut, contains}
use nvidia_ci.Text.Split.{split}
use nvidia_ci.Registry.Site.{Library, Site, TokenReply, Url, staging_site}
use nvidia_ci.Registry.Header.{next_registry_page_url}
use nvidia_ci.Registry.Client.{Server, Request, Response, Credentials, anonymous, basic, bearer}
use nvidia_ci.Registry.Tags.{tags_url, list_pages, list_registry_tags}
use nvidia_ci.Registry.Confined.Redirects.{Redirects}
use nvidia_ci.Registry.Pages.{Serves, Chain, done, page, list_pages-Chain}

-- An https address is read up to its first slash; bodies are lists between commas, or the token.
unfoldable pub test_library : Library
unfolding strip_prefix cut split
test_library = record {
  parse_url = λ url. elim (strip_prefix (codes "https://") url) [
    | none ↦ none
    | some rest ↦ some (record { scheme = codes "https"; hostname = (cut (codes "/") rest).before })
  ];
  query_escape = λ t. t;
  decode_base64 = λ t. some t;
  decode_tags = λ body. some (split b',' body);
  decode_token = λ body. some (record { token = body; access_token = [] });
}

abbrev challenge_answer : Response
challenge_answer = record {
  status = 401;
  www_authenticate = codes "Bearer realm=\"https://sso.redhat.com/auth\",service=\"docker\"";
  link = [];
  body = [];
}

abbrev token_answer : Response
token_answer = record { status = 200; www_authenticate = []; link = []; body = codes "secret" }

abbrev first_page : Response
first_page = record {
  status = 200;
  www_authenticate = [];
  link = codes "</v2/more>; rel=\"next\"";
  body = codes "a,b";
}

abbrev last_page : Response
last_page = record { status = 200; www_authenticate = []; link = []; body = codes "c" }

unfoldable pub answer_to : Credentials → Text → Response
unfolding contains
answer_to anonymous url = challenge_answer
answer_to (basic user password) url = token_answer
answer_to (bearer token) url = if contains (codes "more") url then last_page else first_page

abbrev pub test_server : Server
test_server log req = ok (answer_to req.credentials req.url)

abbrev test_site : Site
test_site = staging_site (codes "nvidia/doca-driver-rhel9")

listed :
    (list_registry_tags 3 test_library test_site test_server (codes "u:p") []).0
    ≡ ok (codes "a" ∷ codes "b" ∷ codes "c" ∷ [])
unfolding list_registry_tags test_library answer_to nvidia_ci.Text.Labels.lookup
    nvidia_ci.Registry.Header.parse_www_authenticate nvidia_ci.Text.trim_prefix
    nvidia_ci.Text.Trim.trim_space nvidia_ci.Registry.Site.validate_url staging_site
    nvidia_ci.Registry.Site.is_staging_auth_host next_registry_page_url nvidia_ci.Text.trim_suffix
listed = refl

-- Each request is sent again by a redirect, without its credentials if its address is not read.
again : Option Url → Request → Request
again none r = record r { credentials = anonymous }
again (some u) r = r

abbrev sent_again : Redirects
sent_again before r = again (test_library.parse_url r.url) r ∷ []

abbrev more_url : Text
more_url = codes "https://registry.stage.redhat.io/v2/more"

first_served :
    Serves test_library test_site test_server
      (codes "t")
      (tags_url test_site)
      (codes "a" ∷ codes "b" ∷ [])
      more_url
unfolding test_library answer_to staging_site next_registry_page_url nvidia_ci.Text.Trim.trim_space
    nvidia_ci.Text.trim_suffix nvidia_ci.Text.trim_prefix
first_served = record {
  parses = refl;
  resp = first_page;
  answers = λ log. refl;
  status = refl;
  decoded = refl;
  link = refl;
}

last_served : Serves test_library test_site test_server (codes "t") more_url (codes "c" ∷ []) []
unfolding test_library answer_to next_registry_page_url
last_served = record {
  parses = refl;
  resp = last_page;
  answers = λ log. refl;
  status = refl;
  decoded = refl;
  link = refl;
}

two_pages :
    Chain test_library test_site test_server
      (codes "t")
      (tags_url test_site)
      2
      (codes "a" ∷ codes "b" ∷ codes "c" ∷ [])
unfolding staging_site
two_pages =
    page (codes "a" ∷ codes "b" ∷ []) more_url (codes "c" ∷ []) refl first_served
      (page (codes "c" ∷ []) [] [] refl last_served (done refl refl) refl) refl

list_pages-Chain_example :
    (log' : List Request) × (list_pages 3 test_library test_site test_server
        (codes "t")
        (tags_url test_site)
        []
        []
      ≡ (ok (codes "a" ∷ codes "b" ∷ codes "c" ∷ []), log'))
list_pages-Chain_example =
    list_pages-Chain test_library test_site test_server (codes "t") 3 2 (tags_url test_site)
      (codes "a" ∷ codes "b" ∷ codes "c" ∷ []) [] [] two_pages (omega arith)
