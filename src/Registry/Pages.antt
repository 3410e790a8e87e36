-- ===== src/Registry/Pages.antt =====
-- About the loop over the pages of tags: chains of pages that a server answers.
use nvidia_ci.Common.{
  ℕ, zero, suc, ◌<◌, ◌≡◌, ap, ◌∙◌, true, false, List, [], ◌∷◌, ◌++◌, append_assoc, append-nil, some,
  arith, is_some, ok,
}
use nvidia_ci.Text.{Text, is_empty}
use nvidia_ci.Registry.Site.{Library, Site}
use nvidia_ci.Registry.Header.{next_registry_page_url}
use nvidia_ci.Registry.Client.{Server, Request, Response}
use nvidia_ci.Registry.Tags.{page_request, list_pages, list_tags_page}

module _ (lib : Library) (site : Site) (server : Server) (token : Text) where
  -- Whatever was asked before, the server answers the page's request with these tags and this link.
  pub record Serves (url : Text) (tags : List Text) (next : Text) : Type 0 where
    pub parses : is_some (lib.parse_url url) ≡ true
    pub resp : Response
    pub answers : (log : List Request) → server log (page_request site token url) ≡ ok resp
    pub status : resp.status ≡ 200
    pub decoded : lib.decode_tags resp.body ≡ some tags
    pub link : next_registry_page_url lib site resp.link ≡ next

  -- Pages from an address to the last one, with their number and their tags in order.
  pub data Chain : Text → ℕ → List Text → Type 0 where
    done : {url : Text} {all : List Text} → url ≡ [] → all ≡ [] → Chain url 0 all
    page :
        {url : Text} {n : ℕ} {all : List Text} (tags : List Text) (next : Text) (rest : List Text)
        → is_empty url ≡ false
        → Serves url tags next
        → Chain next n rest
        → all ≡ tags ++ rest
        → Chain url (suc n) all

  page_served :
      (url : Text) (tags : List Text) (next : Text)
      → Serves url tags next
      → (log : List Request)
      → list_tags_page lib site server url token log
        ≡ (ok (record { tags = tags; next = next }), log ++ page_request site token url ∷ [])
  unfolding list_tags_page
  page_served url tags next s log = rw (s.parses, s.answers, s.status, s.decoded, s.link)

  -- With more rounds than pages the listing ends, with all the tags in the order of the pages.
  pub list_pages-Chain :
      (rounds n : ℕ) (url : Text) (all acc : List Text) (log : List Request)
      → Chain url n all
      → n < rounds
      → (log' : List Request) × (list_pages rounds lib site server token url acc log
          ≡ (ok (acc ++ all), log'))
  unfolding list_pages
  list_pages-Chain zero n url all acc log c h = absurd (omega arith)
  list_pages-Chain (suc rounds) zero url all acc log (done e e') h = (log, rw (e, e', append-nil))
  list_pages-Chain (suc rounds) (suc n) url all acc log (page tags next rest ne s c e) h =
      let (log', later) =
        list_pages-Chain rounds n next rest (acc ++ tags) (log ++ page_request site token url ∷ [])
          c (omega arith) in
      (
        log',
        rw (ne, page_served url tags next s log, e)
            (later ∙ ap (λ (t : List Text). (ok t, log')) (append_assoc acc tags rest)),
      )
