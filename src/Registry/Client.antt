-- ===== src/Registry/Client.antt =====
-- client.Do as a function of the requests so far, and the requests of the flow.
use nvidia_ci.Common.{
  ℕ, not, List, [], ◌∷◌, ◌++◌, Option, none, some, if◌then◌else◌, ◌==◌, Result, ok, err, is_some,
}
use nvidia_ci.Text.{Text, codes, is_empty}
use nvidia_ci.Text.Search.{cut}
use nvidia_ci.Text.Labels.{Labels, lookup}
use nvidia_ci.Registry.Site.{Library, Site, TokenReply, validate_auth_url}
use nvidia_ci.Registry.Header.{parse_www_authenticate}

-- What the Authorization header carries.
pub data Credentials : Type 0 where
  anonymous : Credentials
  basic : Text → Text → Credentials
  bearer : Text → Credentials

pub record Request : Type 0 where
  pub url : Text
  pub credentials : Credentials
  pub user_agent : Text

pub record Response : Type 0 where
  pub status : ℕ
  pub www_authenticate : Text
  pub link : Text
  pub body : Text

pub data RegistryError : Type 0 where
  bad_request not_unauthorized no_realm untrusted_realm bad_credentials no_token bad_body :
      RegistryError
  out_of_rounds : RegistryError  -- the model's rounds ran out; no error of the source
  bad_status : ℕ → RegistryError
  transport : Text → RegistryError

-- client.Do, a parameter: what it returns for a request, by the requests handed to it before. The
-- redirects that net/http follows are within it, and the status is that of the last response.
abbrev pub Server : Type 0
Server = List Request → Request → Result Text Response

-- An action returns its result and the requests handed to client.Do so far, the latest last.
abbrev pub Action : Type 0 → Type 0
Action A = List Request → Result RegistryError A × List Request

abbrev pub and_then :
    {A B : Type 0}
    → (A → Action B)
    → Result RegistryError A × List Request
    → Result RegistryError B × List Request
and_then f (ok a, log) = f a log
and_then f (err e, log) = (err e, log)

infixl 5 ◌>>=◌ ◌>>◌
abbrev pub ◌>>=◌ : {A B : Type 0} → Action A → (A → Action B) → Action B
◌>>=◌ m f log = and_then f (m log)

abbrev pub ◌>>◌ : {B : Type 0} → Action Unit → Action B → Action B
◌>>◌ first rest log = and_then (λ ignored. rest) (first log)

abbrev pub pure : {A : Type 0} → A → Action A
pure a log = (ok a, log)

abbrev pub fail : {A : Type 0} → RegistryError → Action A
fail e log = (err e, log)

abbrev pub answer : Result Text Response → Result RegistryError Response
answer (ok r) = ok r
answer (err e) = err (transport e)

-- http.NewRequestWithContext fails on a URL that does not parse.
unfoldable pub new_request : Library → Text → Action Unit
new_request lib url = if is_some (lib.parse_url url) then pure tt else fail bad_request

-- client.Do(req); the request is noted, not those that net/http makes behind a redirect.
unfoldable pub send : Server → Request → Action Response
send server req log = (answer (server log req), log ++ req ∷ [])

-- The realm with the service and scope behind it.
abbrev pub with_scope : Library → Text → Text → Option Text → Text
with_scope lib url sep none = url
with_scope lib url sep (some scope) = url ++ (sep ++ (codes "scope=" ++ lib.query_escape scope))

abbrev pub with_service : Library → Text → Option Text → Option Text → Text
with_service lib realm none scope = with_scope lib realm (codes "?") scope
with_service lib realm (some service) scope =
    with_scope lib (realm ++ (codes "?service=" ++ lib.query_escape service)) (codes "&") scope

unfoldable pub token_url : Library → Labels → Text → Text
token_url lib params realm =
    with_service lib realm (lookup (codes "service") params) (lookup (codes "scope") params)

abbrev pub token_of : Option TokenReply → Action Text
token_of none = fail bad_body
token_of (some r) =
    if not (is_empty r.token)
    then pure r.token
    else if not (is_empty r.access_token)
    then pure r.access_token
    else fail no_token

abbrev pub read_token : Library → Response → Action Text
read_token lib resp =
    if resp.status == 200
    then token_of (lib.decode_token resp.body)
    else fail (bad_status resp.status)

abbrev pub token_request : Site → Text → Text → Text → Request
token_request site url user password = record {
  url = url;
  credentials = basic user password;
  user_agent = site.user_agent;
}

abbrev pub with_password : Library → Site → Server → Text → Option Text → Action Text
with_password lib site server url none = fail bad_credentials
with_password lib site server url (some decoded) =
    let parts = cut (codes ":") decoded in
    if not parts.found then fail bad_credentials else do
      resp ← send server (token_request site url parts.before parts.after)
      read_token lib resp

unfoldable pub request_token : Library → Site → Server → Text → Text → Action Text
unfolding new_request send
request_token lib site server url auth_base64 = do
  new_request lib url
  with_password lib site server url (lib.decode_base64 auth_base64)

-- obtainStagingRegistryToken, obtainRegistryToken
unfoldable pub obtain_token : Library → Site → Server → Text → Text → Action Text
unfolding request_token token_url
obtain_token lib site server www_auth auth_base64 =
    let params = parse_www_authenticate www_auth in
    elim (lookup (codes "realm") params) [
      | none ↦ fail no_realm
      | some realm ↦
          if not (validate_auth_url lib site realm)
          then fail untrusted_realm
          else request_token lib site server (token_url lib params realm) auth_base64
    ]
