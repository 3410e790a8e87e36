-- ===== src/Ofed/Image/Laws.antt =====
-- What a chosen tag and a mapped image satisfy.
use nvidia_ci.Common.{
  ℕ, zero, suc, ◌+◌, Bool, true, false, not, ◌&&◌, ◌||◌, ◌≡◌, refl, sym, subst, inl, inr, List, [],
  ◌∷◌, ◌++◌, Option, none, some, arith, Has, Bool-cases, Option-cases, some_inj, none-ne-some,
  false-ne-true, drop, length,
}
use nvidia_ci.Text.{Text, codes, is_empty, has_suffix}
use nvidia_ci.Text.Search.{contains, index, index_sound, cut}
use nvidia_ci.Ofed.Image.{
  CatalogImage, OfedImage, kernel_needle, driver_suffix, choose_driver_tag, ofed_version_from_tag,
  before_kernel, map_catalog_image, precompiled_ofed_registry,
}

-- The tag names the kernel, and ends in the OS tag and the architecture.
pub record TagFits (kernel_version os_tag architecture tag : Text) : Type 0 where
  pub kernel : contains (kernel_needle kernel_version) tag ≡ true
  pub suffix : has_suffix (driver_suffix os_tag architecture) tag ≡ true

-- A chosen tag is one of the image's tags and fits.
pub choose_driver_tag-TagFits :
    (tags : List Text) (kernel_version os_tag architecture : Text)
    → is_empty (choose_driver_tag tags kernel_version os_tag architecture) ≡ false
    → Has (choose_driver_tag tags kernel_version os_tag architecture) tags
      × TagFits kernel_version os_tag architecture
          (choose_driver_tag tags kernel_version os_tag architecture)
unfolding choose_driver_tag
choose_driver_tag-TagFits [] k o a h = cc
choose_driver_tag-TagFits (tag ∷ tags) k o a h =
    elim (Bool-cases (contains (kernel_needle k) tag && has_suffix (driver_suffix o a) tag)) [
      | inl e ↦ subst Chosen (taken e) (inl refl, both e)
      | inr e ↦
          let (has, fits) = choose_driver_tag-TagFits tags k o a (rw (skipped e) at h) in
          subst Chosen (sym (skipped e)) (inr has, fits)
    ]
  where
    Chosen : Text → Type 0
    Chosen t = Has t (tag ∷ tags) × TagFits k o a t

    test : Bool
    test = contains (kernel_needle k) tag && has_suffix (driver_suffix o a) tag

    taken : test ≡ true → tag ≡ choose_driver_tag (tag ∷ tags) k o a
    taken e = rw e

    skipped : test ≡ false → choose_driver_tag (tag ∷ tags) k o a ≡ choose_driver_tag tags k o a
    skipped e = rw e

    both :
        contains (kernel_needle k) tag && has_suffix (driver_suffix o a) tag ≡ true
        → TagFits k o a tag
    both e = record { kernel = ground arith; suffix = ground arith }

before_kernel_sound :
    (tag needle : Text) (at : Option ℕ)
    → index needle tag ≡ at
    → is_empty (before_kernel tag at) ≡ false
    → (rest : Text) × (tag ≡ before_kernel tag at ++ (needle ++ rest))
before_kernel_sound tag needle none e h = cc
before_kernel_sound tag needle (some zero) e h = cc
before_kernel_sound tag needle (some (suc i)) e h =
    (drop (suc i + length needle) tag, index_sound needle tag (suc i) e)

-- A base version that is not "" stands in front of the kernel.
pub ofed_version_from_tag_sound :
    (tag kernel_version : Text)
    → is_empty (ofed_version_from_tag tag kernel_version) ≡ false
    → (rest : Text) × (tag
        ≡ ofed_version_from_tag tag kernel_version ++ (kernel_needle kernel_version ++ rest))
unfolding ofed_version_from_tag
ofed_version_from_tag_sound tag k h =
    before_kernel_sound tag (kernel_needle k) (index (kernel_needle k) tag) refl h

-- `o` is the driver image of the catalog image with the repository `repository` at the tag.
pub record Maps (repository tag kernel_version : Text) (o : OfedImage) : Type 0 where
  pub same_tag : o.tag ≡ tag
  pub has_version : is_empty o.version ≡ false
  pub behind : Text
  pub spelled : tag ≡ o.version ++ (kernel_needle kernel_version ++ behind)
  pub namespace : Text
  pub in_registry : o.repository ≡ precompiled_ofed_registry ++ (codes "/" ++ namespace)
  pub repository_of : repository ≡ namespace ++ (codes "/" ++ o.image)

pub cut-found :
    (sep s : Text) → (cut sep s).found ≡ true → s ≡ (cut sep s).before ++ (sep ++ (cut sep s).after)
unfolding cut
cut-found sep s h = elim (Option-cases (index sep s)) [
  | inl e ↦ absurd (false-ne-true (rw (e, cut) at h))
  | inr (i, e) ↦ rw (e, cut) (index_sound sep s i e)
]

abbrev bad_repository : CatalogImage → Bool
bad_repository img =
    let parts = cut (codes "/") img.repository in
    not parts.found || is_empty parts.before || is_empty parts.after

pub map_catalog_image-Maps :
    (img : CatalogImage) (tag kernel_version : Text) {o : OfedImage}
    → map_catalog_image img tag kernel_version ≡ some o
    → Maps img.repository tag kernel_version o
unfolding map_catalog_image
map_catalog_image-Maps img tag k {o} h = elim (Bool-cases (bad_repository img)) [
  | inl e ↦ absurd (none-ne-some (rw e at h))
  | inr e ↦ elim (Bool-cases (is_empty (ofed_version_from_tag tag k))) [
    | inl v ↦ absurd (none-ne-some (rw (e, v) at h))
    | inr v ↦
        let (behind, split) = ofed_version_from_tag_sound tag k v in
        subst (Maps img.repository tag k) (some_inj (rw (e, v) at h)) record {
          same_tag = refl;
          has_version = v;
          behind = behind;
          spelled = split;
          namespace = (cut (codes "/") img.repository).before;
          in_registry = refl;
          repository_of = cut-found (codes "/") img.repository (ground arith);
        }
  ]
]
