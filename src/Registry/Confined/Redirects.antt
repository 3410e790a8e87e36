-- ===== src/Registry/Confined/Redirects.antt =====
-- About the requests that client.Do makes by itself. Neither http.Client has a CheckRedirect, so net/http
-- follows a redirect, and the Authorization header of the first request goes with it to the same host
-- and to the host's subdomains, under any scheme.
use nvidia_ci.Common.{◌≡◌, ◌⊎◌, List, [], ◌∷◌, ◌++◌, some, Has}
use nvidia_ci.Text.{Text, codes}
use nvidia_ci.Registry.Site.{Library, Site, Url}
use nvidia_ci.Registry.Client.{Request, anonymous}
use nvidia_ci.Registry.Confined.{IsConfined}

-- The further requests that client.Do makes for a request, by the requests handed to it before.
abbrev pub Redirects : Type 0
Redirects = List Request → Request → List Request

-- The second address is of the first one's host, or of a subdomain of it.
abbrev pub Reaches : Library → Text → Text → Type 0
Reaches lib url url' =
    (a : Url) × (b : Url) × (lib.parse_url url ≡ some a)
    × (lib.parse_url url' ≡ some b)
    × ((b.hostname ≡ a.hostname) ⊎ ((sub : Text) × (b.hostname ≡ sub ++ (codes "." ++ a.hostname))))

-- net/http: a request behind a redirect has the credentials of the first one, if it reaches no other
-- host, or none.
pub record IsHttp (lib : Library) (redirects : Redirects) : Type 0 where
  pub keeps :
      (before : List Request) (first next : Request)
      → Has next (redirects before first)
      → (next.credentials ≡ anonymous)
        ⊎ ((next.credentials ≡ first.credentials) × Reaches lib first.url next.url)

-- All requests that go out for those that were handed to client.Do.
unfoldable pub on_wire : Redirects → List Request → List Request → List Request
on_wire redirects before [] = []
on_wire redirects before (r ∷ handed) =
    r ∷ (redirects before r ++ on_wire redirects (before ++ r ∷ []) handed)

-- The credentials may go to the address, or to one from which it is reached.
abbrev pub IsReached : Library → Site → Request → Type 0
IsReached lib site r =
    IsConfined lib site r.credentials r.url
    ⊎ ((url : Text) × IsConfined lib site r.credentials url × Reaches lib url r.url)
