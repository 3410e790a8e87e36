-- ===== src/Registry/Tags.antt =====
-- listStagingRegistryTags and listRegistryTags: the challenge, the token, and the pages of tags.
use nvidia_ci.Common.{ℕ, zero, suc, List, [], ◌++◌, Option, none, some, if◌then◌else◌, ◌==◌}
use nvidia_ci.Text.{Text, codes, is_empty}
use nvidia_ci.Registry.Site.{Library, Site, https_registry}
use nvidia_ci.Registry.Header.{next_registry_page_url}
use nvidia_ci.Registry.Client.{
  Server, Action, Request, Response, anonymous, bearer, bad_status, bad_body, not_unauthorized,
  out_of_rounds, ◌>>=◌, ◌>>◌, pure, fail, new_request, send, obtain_token,
}

abbrev pub tags_url : Site → Text
tags_url site = https_registry site ++ (codes "/v2/" ++ (site.repository ++ codes "/tags/list"))

abbrev pub challenge_request : Site → Request
challenge_request site = record {
  url = tags_url site;
  credentials = anonymous;
  user_agent = site.user_agent;
}

abbrev pub page_request : Site → Text → Text → Request
page_request site token url = record {
  url = url;
  credentials = bearer token;
  user_agent = site.user_agent;
}

-- A page: its tags, and the address of the next page, "" on the last.
pub record Page : Type 0 where
  pub tags : List Text
  pub next : Text

abbrev pub page_of : Library → Site → Text → Option (List Text) → Action Page
page_of lib site link none = fail bad_body
page_of lib site link (some tags) =
    pure (record { tags = tags; next = next_registry_page_url lib site link })

abbrev pub read_page : Library → Site → Response → Action Page
read_page lib site resp =
    if resp.status == 200
    then page_of lib site resp.link (lib.decode_tags resp.body)
    else fail (bad_status resp.status)

-- listStagingRegistryTagsPage
unfoldable pub list_tags_page : Library → Site → Server → Text → Text → Action Page
unfolding new_request send
list_tags_page lib site server page_url token = do
  new_request lib page_url
  resp ← send server (page_request site token page_url)
  read_page lib site resp

-- `for nextURL != ""`, with the rounds left.
unfoldable pub list_pages :
    ℕ → Library → Site → Server → Text → Text → List Text → Action (List Text)
unfolding list_tags_page
list_pages zero lib site server token next_url all_tags = fail out_of_rounds
list_pages (suc rounds) lib site server token next_url all_tags =
    let more = list_tags_page lib site server next_url token >>= λ page.
    list_pages rounds lib site server token page.next (all_tags ++ page.tags) in
    if is_empty next_url then pure all_tags else more

-- The part behind the challenge.
abbrev pub challenged : ℕ → Library → Site → Server → Text → Response → Action (List Text)
challenged rounds lib site server auth_base64 resp =
    let listing = obtain_token lib site server resp.www_authenticate auth_base64 >>= λ token.
    list_pages rounds lib site server token (tags_url site) [] in
    if resp.status == 401 then listing else fail not_unauthorized

unfoldable pub list_registry_tags : ℕ → Library → Site → Server → Text → Action (List Text)
unfolding list_pages obtain_token
list_registry_tags rounds lib site server auth_base64 = do
  new_request lib (tags_url site)
  resp ← send server (challenge_request site)
  challenged rounds lib site server auth_base64 resp
