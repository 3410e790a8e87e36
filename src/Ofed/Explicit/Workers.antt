-- ===== src/Ofed/Explicit/Workers.antt =====
-- About CheckPrecompiledOFEDTag and CheckPrecompiledOFEDWorkerTag.
use nvidia_ci.Common.{
  ℕ, true, false, ◌≡◌, refl, sym, ◌∙◌, subst, inl, inr, ◌↔◌, List, [], ◌∷◌, ◌++◌, some, Has, any,
  any_iff, Bool-cases, Result, ok, err, err-ne-ok,
}
use nvidia_ci.Text.{Text, codes, text_eq, is_empty}
use nvidia_ci.Text.Search.{text_eq_sound, text_eq_refl}
use nvidia_ci.Text.Trim.{trim_space}
use nvidia_ci.Text.Trim.Laws.{trim_space_idem}
use nvidia_ci.Ofed.Image.{CatalogImage, OfedImage}
use nvidia_ci.Ofed.Select.{CatalogClient}
use nvidia_ci.Ofed.Explicit.Defs.{
  parse_explicit, lists_tag, from_registry, check_tag, check_worker_tag, worker_pull_spec,
}
use nvidia_ci.Ofed.Explicit.RoundTrip.{Parses, parse_explicit-Parses, pull_spec-tagged}

-- The client's answer for the image's repository has an image with exactly the image's tag.
pub record IsListed (client : CatalogClient) (o : OfedImage) : Type 0 where
  pub images : List CatalogImage
  pub answer : client (codes "nvidia/" ++ o.image) ≡ ok images
  pub image : CatalogImage
  pub has_image : Has image images
  pub has_tag : Has o.tag image.tags

lists_tag-Has :
    (tag : Text) (images : List CatalogImage)
    → lists_tag tag images ≡ true
    → (image : CatalogImage) × Has image images × Has tag image.tags
unfolding lists_tag
lists_tag-Has tag images h =
    let (image, has_image, listed) =
      (any_iff (λ image. any (λ t. text_eq t tag) image.tags) images).0 h in
    let (t, has_tag, same) = (any_iff (λ t. text_eq t tag) image.tags).0 listed in
    (image, has_image, subst (λ x. Has x image.tags) (text_eq_sound t tag same) has_tag)

Has-lists_tag :
    (tag : Text) (images : List CatalogImage) (image : CatalogImage)
    → Has image images
    → Has tag image.tags
    → lists_tag tag images ≡ true
unfolding lists_tag
Has-lists_tag tag images image hi ht =
    (any_iff (λ image. any (λ t. text_eq t tag) image.tags) images).1
      (image, hi, (any_iff (λ t. text_eq t tag) image.tags).1 (tag, ht, text_eq_refl tag))

-- The check of an image succeeds exactly when the registry lists its tag under its repository.
pub check_tag_iff :
    (client : CatalogClient) (o : OfedImage)
    → (check_tag client (some o) ≡ ok tt) ↔ IsListed client o
unfolding check_tag
check_tag_iff client o = (λ h. listed (client (codes "nvidia/" ++ o.image)) refl h, λ l. accepted l)
  where
    listed :
        (answer : Result Text (List CatalogImage))
        → client (codes "nvidia/" ++ o.image) ≡ answer
        → from_registry o answer ≡ ok tt
        → IsListed client o
    listed (err e) at h = absurd (err-ne-ok h)
    listed (ok images) at h = elim (Bool-cases (lists_tag o.tag images)) [
      | inl e ↦
          let (image, has_image, has_tag) = lists_tag-Has o.tag images e in
          record {
            images = images;
            answer = at;
            image = image;
            has_image = has_image;
            has_tag = has_tag;
          }
      | inr e ↦ absurd (err-ne-ok (rw e at h))
    ]

    accepted : IsListed client o → check_tag client (some o) ≡ ok tt
    accepted l = rw (l.answer, Has-lists_tag o.tag l.images l.image l.has_image l.has_tag)

parse_explicit-trim :
    (spec k os arch : Text)
    → parse_explicit (trim_space spec) k os arch ≡ parse_explicit spec k os arch
unfolding parse_explicit
parse_explicit-trim spec k os arch = rw trim_space_idem

is_empty-append : (v w : Text) (c : ℕ) → is_empty (v ++ (c ∷ w)) ≡ false
is_empty-append [] w c = refl
is_empty-append (b ∷ v) w c = refl

-- The reference rebuilt for the worker is the one that was parsed.
worker_pull_spec-Parses :
    (spec k os arch : Text) (o : OfedImage)
    → Parses spec k (trim_space os) arch o
    → worker_pull_spec o k os arch ≡ spec
unfolding worker_pull_spec
worker_pull_spec-Parses spec k os arch o p =
    let tagged : is_empty o.tag ≡ false = rw p.with_suffix (is_empty-append o.version _ _) in
    rw (← p.with_suffix) (sym (pull_spec-tagged o tagged) ∙ p.printed)

-- For an image that was parsed for a worker, the check for that same worker is the check of the image.
pub check_worker_tag_self :
    (client : CatalogClient) (spec k os arch : Text) (o : OfedImage)
    → parse_explicit spec k os arch ≡ ok o
    → check_worker_tag client (some o) k os arch ≡ check_tag client (some o)
unfolding check_worker_tag
check_worker_tag_self client spec k os arch o h =
    let same =
      worker_pull_spec-Parses (trim_space spec) k os arch o
        (parse_explicit-Parses spec k os arch o h) in
    rw (same, parse_explicit-trim, h)
