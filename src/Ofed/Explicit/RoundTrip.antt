-- ===== src/Ofed/Explicit/RoundTrip.antt =====
-- About ParseExplicitPrecompiledOFEDPullSpec and PullSpec: parse and print.
use nvidia_ci.Common.{
  Bool, true, false, not, ◌&&◌, ◌||◌, ◌≡◌, refl, sym, ◌∙◌, subst, inl, inr, ◌++◌, append_assoc,
  Option, none, some, arith, Bool-cases, ok, ok_inj, err-ne-ok,
}
use nvidia_ci.Text.{Text, codes, is_empty, has_prefix, trim_prefix, has_suffix, trim_suffix}
use nvidia_ci.Text.Search.{Pieces, cut, trim_prefix-append, trim_suffix-append}
use nvidia_ci.Text.Trim.{trim_space}
use nvidia_ci.Ofed.Image.{OfedImage, pull_spec, map_catalog_image, precompiled_ofed_registry}
use nvidia_ci.Ofed.Image.Laws.{map_catalog_image-Maps, cut-found}
use nvidia_ci.Ofed.Explicit.Defs.{
  registry_slash, worker_suffix, is_supported, with_base_version, parse_parts, parse_explicit,
  catalog_image_of,
}

-- What a successful parse has checked and built.
pub record Parses (spec kernel_version os_tag architecture : Text) (o : OfedImage) : Type 0 where
  pub path : Text
  pub tag : Text
  pub cut_spec : spec ≡ path ++ (codes ":" ++ tag)
  pub supported : is_supported (cut (codes ":") spec) ≡ true
  pub printed : pull_spec o ≡ spec
  pub with_suffix : o.tag ≡ o.version ++ worker_suffix kernel_version os_tag architecture
  pub no_dash : has_suffix (codes "-") o.version ≡ false

with_base_version-ok :
    (tag suffix : Text) (found : Option OfedImage) {o : OfedImage}
    → with_base_version tag suffix found ≡ ok o
    → (s : OfedImage) × (found ≡ some s)
      × (o ≡ record s { version = trim_suffix suffix tag })
      × (has_suffix (codes "-") (trim_suffix suffix tag) ≡ false)
unfolding with_base_version
with_base_version-ok tag suffix none h = cc
with_base_version-ok tag suffix (some s) h =
    elim (Bool-cases (has_suffix (codes "-") (trim_suffix suffix tag))) [
      | inl e ↦ absurd (err-ne-ok (rw e at h))
      | inr e ↦ (s, refl, sym (ok_inj (rw e at h)), e)
    ]

spelled_out :
    (reg slash colon ns name tag repository path spec : Text)
    → repository ≡ ns ++ (slash ++ name)
    → path ≡ (reg ++ slash) ++ repository
    → spec ≡ path ++ (colon ++ tag)
    → (reg ++ (slash ++ ns)) ++ (slash ++ (name ++ (colon ++ tag))) ≡ spec
spelled_out reg slash colon ns name tag repository path spec hr hp hs =
    rw (hs, hp, hr) (simp append_assoc)

pub pull_spec-tagged :
    (o : OfedImage)
    → is_empty o.tag ≡ false
    → pull_spec o ≡ o.repository ++ (codes "/" ++ (o.image ++ (codes ":" ++ o.tag)))
unfolding pull_spec
pull_spec-tagged o h = rw h

-- What the long condition says.
abbrev Supports : Pieces → Type 0
Supports parts =
    (has_prefix registry_slash parts.before ≡ true)
    × (parts.found ≡ true)
    × (is_empty parts.after ≡ false)

is_supported-Supports : (parts : Pieces) → is_supported parts ≡ true → Supports parts
unfolding is_supported
is_supported-Supports parts h =
    and_parts (has_prefix registry_slash parts.before) parts.found (is_empty parts.after) _ _ h
  where
    and_parts :
        (a b c d e : Bool)
        → (a && b && not c && d && e) ≡ true
        → (a ≡ true) × (b ≡ true) × (c ≡ false)
    and_parts a b c d e h = ground arith

module _ (spec k os arch : Text) {o : OfedImage} where
  built :
      (s : OfedImage)
      → is_supported (cut (codes ":") spec) ≡ true
      → has_suffix (worker_suffix k os arch) (cut (codes ":") spec).after ≡ true
      → map_catalog_image
          (catalog_image_of (trim_prefix registry_slash (cut (codes ":") spec).before))
          (cut (codes ":") spec).after
          k
        ≡ some s
      → o
        ≡ record s { version = trim_suffix (worker_suffix k os arch) (cut (codes ":") spec).after }
      → has_suffix (codes "-") (trim_suffix (worker_suffix k os arch) (cut (codes ":") spec).after)
        ≡ false
      → Parses spec k os arch o
  built s sup suf m same dash =
      let parts = cut (codes ":") spec in
      let tag = parts.after in
      let (in_registry, found, tagged) = is_supported-Supports parts sup in
      let whole = cut-found (codes ":") spec found in
      let maps =
        map_catalog_image-Maps (catalog_image_of (trim_prefix registry_slash parts.before)) tag k
          m in
      subst (Parses spec k os arch) (sym same) record {
        path = parts.before;
        tag = tag;
        cut_spec = whole;
        supported = sup;
        printed =
            pull_spec-tagged (record s { version = trim_suffix (worker_suffix k os arch) tag })
              (rw maps.same_tag tagged)
            ∙ rw (maps.same_tag, maps.in_registry)
                (spelled_out precompiled_ofed_registry (codes "/") (codes ":") maps.namespace
                  s.image tag (trim_prefix registry_slash parts.before) parts.before spec
                  (unfold catalog_image_of in maps.repository_of)
                  (trim_prefix-append registry_slash parts.before in_registry) whole);
        with_suffix = rw maps.same_tag (sym (trim_suffix-append (worker_suffix k os arch) tag suf));
        no_dash = dash;
      }

  parse_parts-Parses :
      parse_parts spec (cut (codes ":") spec) k os arch ≡ ok o → Parses spec k os arch o
  unfolding parse_parts
  parse_parts-Parses h = elim (Bool-cases (is_supported (cut (codes ":") spec))) [
    | inr e ↦ absurd (err-ne-ok (rw e at h))
    | inl e ↦
        elim (Bool-cases (has_suffix (worker_suffix k os arch) (cut (codes ":") spec).after)) [
          | inr e' ↦ absurd (err-ne-ok (rw (e, e') at h))
          | inl e' ↦
              let (s, m, same, dash) = with_base_version-ok _ _ _ (rw (e, e') at h) in
              built s e e' m same dash
        ]
  ]

-- A reference that is accepted for a worker is printed back, up to the spaces around it; its tag is
-- the base version and the worker's suffix, and the base version does not end in a dash.
pub parse_explicit-Parses :
    (spec k os arch : Text) (o : OfedImage)
    → parse_explicit spec k os arch ≡ ok o
    → Parses (trim_space spec) k (trim_space os) arch o
unfolding parse_explicit
parse_explicit-Parses spec k os arch o h =
    elim (Bool-cases (is_empty k || is_empty (trim_space os) || is_empty arch)) [
      | inl e ↦ absurd (err-ne-ok (rw e at h))
      | inr e ↦ parse_parts-Parses (trim_space spec) k (trim_space os) arch (rw e at h)
    ]
