-- ===== src/Registry/Confined.antt =====
-- About the addresses in the flow: where credentials and the token may go.
pub mod Flow
pub mod Redirects
use nvidia_ci.Common.{
  ℕ, zero, suc, ◌≡◌, refl, sym, ap, ◌∙◌, ◌⊎◌, inl, inr, Bool, true, false, not, List, [], ◌∷◌, ◌++◌,
  append_assoc, append-nil, Option, none, some, arith, All, Bool-cases, Option-cases, if◌then◌else◌,
  is_some, Result, ok, err, err-ne-ok, ok_inj, ◌==◌, subst,
}
use nvidia_ci.Text.{Text, codes, is_empty, has_prefix}
use nvidia_ci.Text.Search.{contains, cut, has_prefix_sound}
use nvidia_ci.Text.Split.{split}
use nvidia_ci.Text.Trim.{trim_space}
use nvidia_ci.Text.Labels.{Labels, lookup}
use nvidia_ci.Registry.Site.{
  Library, Site, TokenReply, validate_auth_url, validate_registry_url, https_registry,
}
use nvidia_ci.Registry.Header.{
  parse_www_authenticate, page_url, next_of_parts, next_registry_page_url, link_target,
}
use nvidia_ci.Registry.Client.{
  Server, Action, RegistryError, Request, Response, Credentials, anonymous, basic, bearer, and_then,
  ◌>>=◌, ◌>>◌, pure, fail, new_request, send, token_url, with_scope, with_service, token_of,
  read_token, with_password, token_request, request_token, obtain_token, answer,
}
use nvidia_ci.Registry.Tags.{
  Page, tags_url, challenge_request, page_request, page_of, read_page, list_tags_page, list_pages,
  challenged, list_registry_tags,
}

-- An address under https:// and the registry, or one that the check of the host admits.
abbrev pub IsRegistryUrl : Library → Site → Text → Type 0
IsRegistryUrl lib site url =
    ((path : Text) × (url ≡ https_registry site ++ (codes "/" ++ path)))
    ⊎ (validate_registry_url lib site url ≡ true)

-- An admitted realm, with a query behind it.
abbrev pub IsTokenUrl : Library → Site → Text → Type 0
IsTokenUrl lib site url =
    (realm : Text) × (query : Text) × (validate_auth_url lib site realm ≡ true)
    × (url ≡ realm ++ query)

abbrev pub IsConfined : Library → Site → Credentials → Text → Type 0
IsConfined lib site anonymous url = Unit
IsConfined lib site (basic user password) url = IsTokenUrl lib site url
IsConfined lib site (bearer token) url = IsRegistryUrl lib site url

pub token_url-realm :
    (lib : Library) (params : Labels) (realm : Text)
    → (query : Text) × (token_url lib params realm ≡ realm ++ query)
unfolding token_url
token_url-realm lib params realm =
    by_params (lookup (codes "service") params) (lookup (codes "scope") params)
  where
    by_params :
        (service scope : Option Text)
        → (query : Text) × (with_service lib realm service scope ≡ realm ++ query)
    by_params none none = ([], sym (append-nil realm))
    by_params none (some scope) = (_, refl)
    by_params (some service) none = (_, refl)
    by_params (some service) (some scope) = (_, append_assoc realm _ _)

module _ (lib : Library) (site : Site) where
  abbrev pub NextOk : Text → Type 0
  NextOk url = (is_empty url ≡ true) ⊎ IsRegistryUrl lib site url

  page_url-NextOk : (part : Text) → NextOk (page_url lib site part)
  unfolding page_url
  page_url-NextOk part = elim (Bool-cases (has_prefix (codes "/") part)) [
    | inl e ↦ rw e (
        let (path, split_at) = has_prefix_sound (codes "/") part e in
        inr (inl (path, ap (λ t. https_registry site ++ t) split_at)))
    | inr e ↦ rw e (elim (Bool-cases (validate_registry_url lib site part)) [
      | inl v ↦ rw v (inr (inr v))
      | inr v ↦ rw v (inl refl)
    ])
  ]

  next_of_parts-NextOk : (parts : List Text) → NextOk (next_of_parts lib site parts)
  unfolding next_of_parts
  next_of_parts-NextOk [] = inl refl
  next_of_parts-NextOk (part ∷ parts) =
      elim (Bool-cases (contains (codes "rel=\"next\"") (trim_space part))) [
        | inl e ↦ rw e (page_url-NextOk (link_target (trim_space part)))
        | inr e ↦ rw e (next_of_parts-NextOk parts)
      ]

  pub next-NextOk : (link : Text) → NextOk (next_registry_page_url lib site link)
  unfolding next_registry_page_url
  next-NextOk link = elim (Bool-cases (is_empty link)) [
    | inl e ↦ rw e (inl refl)
    | inr e ↦ rw e (next_of_parts-NextOk (split b',' link))
  ]

-- Every request so far is confined.
abbrev pub AllConfined : Library → Site → List Request → Type 0
AllConfined lib site = All (λ r. IsConfined lib site r.credentials r.url)

pub All-append :
    (lib : Library) (site : Site) (xs ys : List Request)
    → AllConfined lib site xs
    → AllConfined lib site ys
    → AllConfined lib site (xs ++ ys)
All-append lib site [] ys h k = k
All-append lib site (x ∷ xs) ys (p, h) k = (p, All-append lib site xs ys h k)
