-- ===== src/Ofed/Staging/Tags.antt =====
-- About parsePrecompiledTag and catalogImagesFromTags: how a tag is spelled.
use nvidia_ci.Common.{
  ℕ, zero, suc, ◌+◌, true, false, ◌≡◌, ◌≢◌, refl, sym, subst, inl, inr, List, [], ◌∷◌, ◌++◌, Option,
  none, some, some_inj, none-ne-some, false-ne-true, arith, Has, leb, take, drop, length,
  Bool-cases,
}
use nvidia_ci.Text.{Text, text_eq, is_empty}
use nvidia_ci.Text.Search.{contains, contains-append, last_index, last_index_sound, text_eq_refl}
use nvidia_ci.Text.Labels.{label, lookup}
use nvidia_ci.Regex.{find_all}
use nvidia_ci.Ofed.Image.{
  CatalogImage, kernel_needle, image_matches_kernel, kernel_version_without_arch,
}
use nvidia_ci.Ofed.Staging.Defs.{
  ParsedTag, parsed_at, parsed_with, last_taken, kernel_in_tag_regexp, parse_precompiled_tag,
  image_of_tag, add_image, catalog_images_from_tags,
}

-- The tag is the OFED version, the kernel between dashes, and more behind it.
pub record Parses (tag : Text) (p : ParsedTag) : Type 0 where
  pub has_version : is_empty p.ofed ≡ false
  pub behind : Text
  pub more : behind ≢ []
  pub spelled : tag ≡ p.ofed ++ (kernel_needle p.kernel ++ behind)

drop-length : (n : ℕ) (s : Text) → leb (length s) n ≡ false → drop n s ≢ []
drop-length zero [] h = absurd (false-ne-true (sym h))
drop-length zero (c ∷ s) h = λ e. cc e
drop-length (suc n) [] h = absurd (ground arith)
drop-length (suc n) (c ∷ s) h = drop-length n s (ground arith)

long-ne-nil : (n : ℕ) (s : Text) → leb (length s) n ≡ false → s ≢ []
long-ne-nil n [] h = absurd (ground arith)
long-ne-nil n (c ∷ s) h = λ e. cc e

take_of_long : (i : ℕ) (tag : Text) → tag ≢ [] → is_empty (take (suc i) tag) ≡ false
take_of_long i [] h = absurd (h refl)
take_of_long i (c ∷ tag) h = refl

parsed_at-Parses :
    (tag kernel : Text) (at : Option ℕ) (p : ParsedTag)
    → last_index (kernel_needle kernel) tag ≡ at
    → parsed_at tag kernel at ≡ some p
    → Parses tag p
parsed_at-Parses tag kernel none p e h = absurd (none-ne-some h)
parsed_at-Parses tag kernel (some zero) p e h = absurd (none-ne-some h)
parsed_at-Parses tag kernel (some (suc i)) p e h =
    elim (Bool-cases (leb (length tag) (suc i + length (kernel_needle kernel)))) [
      | inl t ↦ absurd (none-ne-some (rw t at h))
      | inr t ↦ subst (Parses tag) (some_inj (rw t at h)) record {
        has_version = take_of_long i tag (long-ne-nil _ tag t);
        behind = drop (suc i + length (kernel_needle kernel)) tag;
        more = drop-length _ tag t;
        spelled = last_index_sound (kernel_needle kernel) tag (suc i) e;
      }
    ]

-- A parsed tag is spelled by its parts, and its OFED version is not empty.
pub parse_precompiled_tag-Parses :
    (tag : Text) (p : ParsedTag) → parse_precompiled_tag tag ≡ some p → Parses tag p
unfolding parse_precompiled_tag
parse_precompiled_tag-Parses tag p h =
    with_kernel (last_taken (find_all kernel_in_tag_regexp tag)) h
  where
    with_kernel : (k : Option Text) → parsed_with tag k ≡ some p → Parses tag p
    with_kernel none e = absurd (none-ne-some e)
    with_kernel (some kernel) e =
        parsed_at-Parses tag kernel (last_index (kernel_needle kernel) tag) p refl e

-- The image of a tag, with what the tag says.
pub record IsImageOf (repository : Text) (tags : List Text) (img : CatalogImage) : Type 0 where
  pub tag : Text
  pub has_tag : Has tag tags
  pub parsed : ParsedTag
  pub parses : Parses tag parsed
  pub built : img ≡ image_of_tag repository tag parsed

kernel_matches :
    (repository tag : Text) (p : ParsedTag)
    → contains (kernel_needle p.kernel) tag ≡ true
    → image_matches_kernel
        (image_of_tag repository tag p)
        p.kernel
        (kernel_version_without_arch p.kernel)
      ≡ true
unfolding image_matches_kernel image_of_tag label lookup text_eq
kernel_matches repository tag p h = rw (text_eq_refl (kernel_version_without_arch p.kernel), h)

-- The image of a parsed tag is one that the selection accepts for the kernel in the tag.
pub image_of_tag-matches :
    (repository tag : Text) (p : ParsedTag)
    → parse_precompiled_tag tag ≡ some p
    → image_matches_kernel
        (image_of_tag repository tag p)
        p.kernel
        (kernel_version_without_arch p.kernel)
      ≡ true
image_of_tag-matches repository tag p h =
    let parses = parse_precompiled_tag-Parses tag p h in
    kernel_matches repository tag p
      (rw parses.spelled (contains-append p.ofed (kernel_needle p.kernel) parses.behind))

IsImageOf-later :
    {repository : Text} {tags : List Text} {img : CatalogImage} (tag : Text)
    → IsImageOf repository tags img
    → IsImageOf repository (tag ∷ tags) img
IsImageOf-later tag g = record {
  tag = g.tag;
  has_tag = inr g.has_tag;
  parsed = g.parsed;
  parses = g.parses;
  built = g.built;
}

add_image-all :
    (repository : Text) (tags : List Text) (tag : Text) (o : Option ParsedTag)
    (images : List CatalogImage)
    → parse_precompiled_tag tag ≡ o
    → ((img : CatalogImage) → Has img images → IsImageOf repository tags img)
    → (img : CatalogImage) → Has img (add_image repository tag o images)
    → IsImageOf repository (tag ∷ tags) img
add_image-all repository tags tag none images e ih img h = IsImageOf-later tag (ih img h)
add_image-all repository tags tag (some p) images e ih img (inl s) = record {
  tag = tag;
  has_tag = inl refl;
  parsed = p;
  parses = parse_precompiled_tag-Parses tag p e;
  built = s;
}
add_image-all repository tags tag (some p) images e ih img (inr h) = IsImageOf-later tag (ih img h)

-- Each catalog image is the image of one of the tags, which is spelled by an OFED version, the
-- kernel and more behind it.
pub catalog_images_from_tags-IsImageOf :
    (repository : Text) (tags : List Text) (img : CatalogImage)
    → Has img (catalog_images_from_tags repository tags)
    → IsImageOf repository tags img
unfolding catalog_images_from_tags
catalog_images_from_tags-IsImageOf repository [] img h = absurd h
catalog_images_from_tags-IsImageOf repository (tag ∷ tags) img h =
    add_image-all repository tags tag (parse_precompiled_tag tag)
      (catalog_images_from_tags repository tags) refl
      (λ i k. catalog_images_from_tags-IsImageOf repository tags i k) img h
