-- ===== src/Ofed/Image.antt =====
-- Catalog images, the selected image, and the tag rules of pkg/nvidianetwork/precompiledofed.go.
pub mod Laws
use nvidia_ci.Common.{
  ℕ, suc, zero, Bool, true, false, ◌&&◌, ◌||◌, not, List, [], ◌∷◌, ◌++◌, Option, none, some, length,
  take, is_nil, if◌then◌else◌, any, ◌==◌,
}
use nvidia_ci.Text.{Text, codes, text_eq, is_empty, has_suffix, trim_suffix}
use nvidia_ci.Text.Search.{contains, index, cut}
use nvidia_ci.Text.Split.{split}
use nvidia_ci.Text.Labels.{Labels, label}
use nvidia_ci.Regex
use nvidia_ci.Regex.{Regex, literal, seq, group, plus, digit, find}

abbrev pub precompiled_ofed_registry : Text
precompiled_ofed_registry = codes "registry.stage.redhat.io"

abbrev pub precompiled_ofed_rhel9_repo : Text
precompiled_ofed_rhel9_repo = codes "nvidia/doca-driver-rhel9"

abbrev pub precompiled_ofed_rhel10_repo : Text
precompiled_ofed_rhel10_repo = codes "nvidia/doca-driver-rhel10"

abbrev pub kernel_version_label : Text
kernel_version_label = codes "kernel_version"

abbrev pub ofed_version_label : Text
ofed_version_label = codes "ofed_version"

-- \.el(\d+)
abbrev el_major_regexp : Regex
el_major_regexp = seq (literal (codes ".el")) (group (plus digit))

abbrev pub kernel_arch_suffixes : List Text
kernel_arch_suffixes =
    codes ".aarch64_64k"
    ∷ codes ".aarch64"
    ∷ codes ".x86_64"
    ∷ codes ".ppc64le"
    ∷ codes ".s390x"
    ∷ []

pub record CatalogImage : Type 0 where
  pub registry : Text
  pub repository : Text
  pub tags : List Text
  pub labels : Labels

pub record OfedImage : Type 0 where
  pub repository : Text
  pub image : Text
  pub version : Text
  pub tag : Text

-- PullSpec of an image that is not nil
unfoldable pub pull_spec : OfedImage → Text
pull_spec o =
    if is_empty o.tag then [] else o.repository ++ (codes "/" ++ (o.image ++ (codes ":" ++ o.tag)))

-- The driver repository for a release of RHEL, by the captured digits.
unfoldable pub repository_for_major : List Text → Option Text
repository_for_major [] = none
repository_for_major (major ∷ groups) =
    if text_eq major (codes "9")
    then some precompiled_ofed_rhel9_repo
    else if text_eq major (codes "10")
    then some precompiled_ofed_rhel10_repo
    else none

unfoldable pub catalog_repository_for_kernel : Text → Option Text
unfolding repository_for_major
catalog_repository_for_kernel kernel_version = elim (find el_major_regexp kernel_version) [
  | none ↦ none
  | some m ↦ repository_for_major m.groups
]

-- The loop over the suffixes.
unfoldable pub without_suffix : List Text → Text → Text
without_suffix [] kernel_version = kernel_version
without_suffix (suffix ∷ suffixes) kernel_version =
    if has_suffix suffix kernel_version
    then trim_suffix suffix kernel_version
    else without_suffix suffixes kernel_version

unfoldable pub kernel_version_without_arch : Text → Text
unfolding without_suffix
kernel_version_without_arch = without_suffix kernel_arch_suffixes

abbrev pub kernel_needle : Text → Text
kernel_needle kernel_version = codes "-" ++ (kernel_version ++ codes "-")

unfoldable pub image_matches_kernel : CatalogImage → Text → Text → Bool
image_matches_kernel img kernel_version kernel_label =
    text_eq (label kernel_version_label img.labels) kernel_label
    && any (contains (kernel_needle kernel_version)) img.tags

abbrev pub driver_suffix : Text → Text → Text
driver_suffix os_tag architecture = codes "-" ++ (os_tag ++ (codes "-" ++ architecture))

-- The first tag with the kernel inside and the suffix at its end, "" if there is none.
unfoldable pub choose_driver_tag : List Text → Text → Text → Text → Text
choose_driver_tag [] kernel_version os_tag architecture = []
choose_driver_tag (tag ∷ tags) kernel_version os_tag architecture =
    if contains (kernel_needle kernel_version) tag
      && has_suffix (driver_suffix os_tag architecture) tag
    then tag
    else choose_driver_tag tags kernel_version os_tag architecture

abbrev first_part : List Text → Text
first_part [] = []
first_part (p ∷ ps) = p

-- `parts[0] + "." + minor` of a version with at least two parts
unfoldable pub cluster_minor_parts : List Text → Text
cluster_minor_parts [] = []
cluster_minor_parts (major ∷ []) = []
cluster_minor_parts (major ∷ minor ∷ parts) = major ++ (codes "." ++ first_part (split b'-' minor))

unfoldable pub cluster_minor : Text → Text
unfolding cluster_minor_parts
cluster_minor version = cluster_minor_parts (split b'.' version)

-- What stands before the kernel; "" if nothing does. `tag[:idx]` for a positive idx.
abbrev pub before_kernel : Text → Option ℕ → Text
before_kernel tag none = []
before_kernel tag (some zero) = []
before_kernel tag (some (suc i)) = take (suc i) tag

unfoldable pub ofed_version_from_tag : Text → Text → Text
ofed_version_from_tag tag kernel_version =
    before_kernel tag (index (kernel_needle kernel_version) tag)

unfoldable pub map_catalog_image : CatalogImage → Text → Text → Option OfedImage
unfolding ofed_version_from_tag
map_catalog_image img tag kernel_version =
    let parts = cut (codes "/") img.repository in
    let version = ofed_version_from_tag tag kernel_version in
    if not parts.found || is_empty parts.before || is_empty parts.after
    then none
    else if is_empty version
    then none
    else some record {
      repository = precompiled_ofed_registry ++ (codes "/" ++ parts.before);
      image = parts.after;
      version = version;
      tag = tag;
    }
