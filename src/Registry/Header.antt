-- ===== src/Registry/Header.antt =====
-- The two headers that steer the flow: WWW-Authenticate and Link.
use nvidia_ci.Common.{List, [], ◌∷◌, ◌++◌, if◌then◌else◌, ◌==◌}
use nvidia_ci.Text.{Text, codes, is_empty, has_prefix, trim_prefix, trim_suffix}
use nvidia_ci.Text.Search.{cut, contains}
use nvidia_ci.Text.Split.{split}
use nvidia_ci.Text.Trim.{trim_space, trim_func}
use nvidia_ci.Text.Labels.{Labels, insert}
use nvidia_ci.Registry.Site.{Library, Site, validate_registry_url, https_registry}

-- strings.Trim(s, "\"")
unfoldable pub unquote : Text → Text
unfolding trim_func
unquote = trim_func (λ c. c == b'"')

-- One part, `key="value"`; a part with no `=` is skipped.
unfoldable pub add_param : Text → Labels → Labels
unfolding unquote cut insert
add_param part params =
    let kv = cut (codes "=") (trim_space part) in
    if kv.found then insert kv.before (unquote kv.after) params else params

unfoldable pub add_params : List Text → Labels → Labels
unfolding add_param
add_params [] params = params
add_params (part ∷ parts) params = add_params parts (add_param part params)

unfoldable pub parse_www_authenticate : Text → Labels
unfolding add_params split
parse_www_authenticate header = add_params (split b',' (trim_prefix (codes "Bearer ") header)) []

-- The address in one part of a Link header.
unfoldable pub link_target : Text → Text
link_target part =
    trim_suffix (codes ">") (trim_prefix (codes "<") (trim_space (cut (codes ";") part).before))

-- What the first part with rel="next" leads to.
unfoldable pub page_url : Library → Site → Text → Text
page_url lib site url_part =
    if has_prefix (codes "/") url_part
    then https_registry site ++ url_part
    else if validate_registry_url lib site url_part
    then url_part
    else []

unfoldable pub next_of_parts : Library → Site → List Text → Text
unfolding page_url link_target
next_of_parts lib site [] = []
next_of_parts lib site (part ∷ parts) =
    if contains (codes "rel=\"next\"") (trim_space part)
    then page_url lib site (link_target (trim_space part))
    else next_of_parts lib site parts

unfoldable pub next_registry_page_url : Library → Site → Text → Text
unfolding next_of_parts split
next_registry_page_url lib site link_header =
    if is_empty link_header then [] else next_of_parts lib site (split b',' link_header)
