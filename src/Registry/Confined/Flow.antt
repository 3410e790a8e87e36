-- ===== src/Registry/Confined/Flow.antt =====
-- About the whole flow: the requests of each action.
use nvidia_ci.Common.{
  ℕ, zero, suc, ◌≡◌, refl, inl, inr, false, List, [], ◌∷◌, ◌++◌, Option, none, some, Bool-cases,
  is_some, Result, ok, err, err-ne-ok, ok_inj, ◌==◌, subst, sym, ◌∙◌, false-ne-true,
}
use nvidia_ci.Text.{Text, codes, is_empty}
use nvidia_ci.Text.Search.{cut}
use nvidia_ci.Text.Labels.{lookup}
use nvidia_ci.Registry.Site.{Library, Site, TokenReply, validate_auth_url}
use nvidia_ci.Registry.Header.{parse_www_authenticate}
use nvidia_ci.Registry.Client.{
  Server, Action, RegistryError, Request, Response, and_then, ◌>>=◌, pure, fail, new_request, send,
  token_url, token_of, read_token, with_password, request_token, obtain_token, out_of_rounds,
  not_unauthorized, bad_status, no_token, bad_body, bad_credentials, no_realm, untrusted_realm,
  bad_request,
}
use nvidia_ci.Registry.Tags.{
  Page, tags_url, challenge_request, page_request, page_of, read_page, list_tags_page, list_pages,
  challenged, list_registry_tags,
}
use nvidia_ci.Registry.Confined.{
  IsRegistryUrl, IsTokenUrl, IsConfined, AllConfined, All-append, NextOk, next-NextOk,
  token_url-realm,
}

module _ (lib : Library) (site : Site) where
  -- The action keeps the requests confined, and its result satisfies `Q`.
  pub record Keeps {A : Type 0} (Q : A → Type 0) (m : Action A) : Type 0 where
    pub at :
        (log : List Request)
        → AllConfined lib site log
        → AllConfined lib site (m log).1 × ((a : A) → (m log).0 ≡ ok a → Q a)

  abbrev Any : {A : Type 0} → A → Type 0
  Any a = Unit {0}

  and_then-confined :
      {A B : Type 0} (Q : A → Type 0) (R : B → Type 0) (f : A → Action B)
      (r : Result RegistryError A × List Request)
      → AllConfined lib site r.1
      → ((a : A) → r.0 ≡ ok a → Q a)
      → ((a : A) → Q a → Keeps R (f a))
      → AllConfined lib site (and_then f r).1 × ((b : B) → (and_then f r).0 ≡ ok b → R b)
  and_then-confined Q R f (ok a, log) h q k = (k a (q a refl)).at log h
  and_then-confined Q R f (err e, log) h q k = (h, λ b p. absurd (err-ne-ok p))

  Keeps-bind :
      {A B : Type 0} (Q : A → Type 0) {R : B → Type 0} (m : Action A) (f : A → Action B)
      → Keeps Q m
      → ((a : A) → Q a → Keeps R (f a))
      → Keeps R (m >>= f)
  Keeps-bind Q {R} m f hm hf = record {
    at = λ log h. and_then-confined Q R f (m log) (hm.at log h).0 (hm.at log h).1 hf;
  }

  Keeps-pure : {A : Type 0} (Q : A → Type 0) (a : A) → Q a → Keeps Q (pure a)
  Keeps-pure Q a q = record { at = λ log h. (h, λ b p. subst Q (ok_inj p) q) }

  Keeps-fail : {A : Type 0} (Q : A → Type 0) (e : RegistryError) → Keeps Q (fail e)
  Keeps-fail Q e = record { at = λ log h. (h, λ b p. absurd (err-ne-ok p)) }

  Keeps-new_request : (url : Text) → Keeps Any (new_request lib url)
  unfolding new_request
  Keeps-new_request url = elim (Bool-cases (is_some (lib.parse_url url))) [
    | inl e ↦ rw e (Keeps-pure Any tt tt)
    | inr e ↦ rw e (Keeps-fail Any bad_request)
  ]

  Keeps-send :
      (server : Server) (req : Request)
      → IsConfined lib site req.credentials req.url
      → Keeps Any (send server req)
  unfolding send
  Keeps-send server req c = record {
    at = λ log h. (All-append lib site log (req ∷ []) h (c, tt), λ a p. tt);
  }

  Keeps-token_of : (r : Option TokenReply) → Keeps Any (token_of r)
  Keeps-token_of none = Keeps-fail Any bad_body
  Keeps-token_of (some r) = elim (Bool-cases (is_empty r.token)) [
    | inr e ↦ rw e (Keeps-pure Any r.token tt)
    | inl e ↦ rw e (elim (Bool-cases (is_empty r.access_token)) [
      | inr e' ↦ rw e' (Keeps-pure Any r.access_token tt)
      | inl e' ↦ rw e' (Keeps-fail Any no_token)
    ])
  ]

  Keeps-read_token : (resp : Response) → Keeps Any (read_token lib resp)
  Keeps-read_token resp = elim (Bool-cases (resp.status == 200)) [
    | inl e ↦ rw e (Keeps-token_of (lib.decode_token resp.body))
    | inr e ↦ rw e (Keeps-fail Any (bad_status resp.status))
  ]

  Keeps-with_password :
      (server : Server) (url : Text) (decoded : Option Text)
      → IsTokenUrl lib site url
      → Keeps Any (with_password lib site server url decoded)
  Keeps-with_password server url none t = Keeps-fail Any bad_credentials
  Keeps-with_password server url (some decoded) t =
      elim (Bool-cases (cut (codes ":") decoded).found) [
        | inr e ↦ rw e (Keeps-fail Any bad_credentials)
        | inl e ↦ rw e (
            Keeps-bind Any (send server _) _ (Keeps-send server _ t)
              (λ resp q. Keeps-read_token resp))
      ]

  Keeps-request_token :
      (server : Server) (url auth : Text)
      → IsTokenUrl lib site url
      → Keeps Any (request_token lib site server url auth)
  unfolding request_token
  Keeps-request_token server url auth t =
      Keeps-bind Any (new_request lib url) _ (Keeps-new_request url)
        (λ a q. Keeps-with_password server url (lib.decode_base64 auth) t)

  Keeps-obtain_token :
      (server : Server) (www auth : Text) → Keeps Any (obtain_token lib site server www auth)
  unfolding obtain_token
  Keeps-obtain_token server www auth =
      by_realm (lookup (codes "realm") (parse_www_authenticate www)) refl
    where
      by_realm :
          (found : Option Text)
          → lookup (codes "realm") (parse_www_authenticate www) ≡ found
          → Keeps Any (obtain_token lib site server www auth)
      by_realm none e = rw (e, obtain_token) (Keeps-fail Any no_realm)
      by_realm (some realm) e = elim (Bool-cases (validate_auth_url lib site realm)) [
        | inr v ↦ rw (e, obtain_token, v) (Keeps-fail Any untrusted_realm)
        | inl v ↦
            let (query, same) = token_url-realm lib (parse_www_authenticate www) realm in
            rw (e, obtain_token, v)
              (Keeps-request_token server (token_url lib (parse_www_authenticate www) realm) auth
                (realm, query, v, same))
      ]

  PageOk : Page → Type 0
  PageOk page = NextOk lib site page.next

  Keeps-page_of :
      (link : Text) (tags : Option (List Text)) → Keeps PageOk (page_of lib site link tags)
  unfolding PageOk
  Keeps-page_of link none = Keeps-fail PageOk bad_body
  Keeps-page_of link (some tags) = Keeps-pure PageOk _ (next-NextOk lib site link)

  Keeps-read_page : (resp : Response) → Keeps PageOk (read_page lib site resp)
  Keeps-read_page resp = elim (Bool-cases (resp.status == 200)) [
    | inl e ↦ rw e (Keeps-page_of resp.link (lib.decode_tags resp.body))
    | inr e ↦ rw e (Keeps-fail PageOk (bad_status resp.status))
  ]

  Keeps-list_tags_page :
      (server : Server) (url token : Text)
      → IsRegistryUrl lib site url
      → Keeps PageOk (list_tags_page lib site server url token)
  unfolding list_tags_page
  Keeps-list_tags_page server url token t =
      Keeps-bind Any (new_request lib url) _ (Keeps-new_request url) (λ a q.
        Keeps-bind Any (send server (page_request site token url)) _ (Keeps-send server _ t)
          (λ resp q'. Keeps-read_page resp))

  Keeps-list_pages :
      (rounds : ℕ) (server : Server) (token url : Text) (acc : List Text)
      → NextOk lib site url
      → Keeps Any (list_pages rounds lib site server token url acc)
  unfolding list_pages
  Keeps-list_pages zero server token url acc n = Keeps-fail Any out_of_rounds
  Keeps-list_pages (suc rounds) server token url acc n = elim (Bool-cases (is_empty url)) [
    | inl e ↦ rw e (Keeps-pure Any acc tt)
    | inr e ↦ rw e (
        Keeps-bind PageOk (list_tags_page lib site server url token) _
          (Keeps-list_tags_page server url token (nonempty n e))
          (λ page q.
            Keeps-list_pages rounds server token page.next (acc ++ page.tags) (unfold PageOk in q)))
  ]
    where
      nonempty : NextOk lib site url → is_empty url ≡ false → IsRegistryUrl lib site url
      nonempty (inl e) f = absurd (false-ne-true (sym f ∙ e))
      nonempty (inr t) f = t

  Keeps-challenged :
      (rounds : ℕ) (server : Server) (auth : Text) (resp : Response)
      → Keeps Any (challenged rounds lib site server auth resp)
  Keeps-challenged rounds server auth resp = elim (Bool-cases (resp.status == 401)) [
    | inl e ↦ rw e (
        Keeps-bind Any (obtain_token lib site server resp.www_authenticate auth) _
          (Keeps-obtain_token server resp.www_authenticate auth)
          (λ token q.
            Keeps-list_pages rounds server token (tags_url site) [] (inr (inl (_, refl)))))
    | inr e ↦ rw e (Keeps-fail Any not_unauthorized)
  ]

  Keeps-list_registry_tags :
      (rounds : ℕ) (server : Server) (auth : Text)
      → Keeps Any (list_registry_tags rounds lib site server auth)
  unfolding list_registry_tags
  Keeps-list_registry_tags rounds server auth =
      Keeps-bind Any (new_request lib (tags_url site)) _ (Keeps-new_request (tags_url site)) (λ a q.
        Keeps-bind Any (send server (challenge_request site)) _
          (Keeps-send server (challenge_request site) tt)
          (λ resp q'. Keeps-challenged rounds server auth resp))

-- Of the requests that are handed to client.Do, whatever it returns, on success and on error alike: the
-- password goes only to an address that begins with an admitted https realm, and the token only to https
-- addresses of the registry.
pub list_registry_tags-AllConfined :
    (lib : Library) (site : Site) (server : Server) (rounds : ℕ) (auth : Text)
    → AllConfined lib site (list_registry_tags rounds lib site server auth []).1
list_registry_tags-AllConfined lib site server rounds auth =
    ((Keeps-list_registry_tags lib site rounds server auth).at [] tt).0
