-- ===== src/Ofed/Select/Defs.antt =====
-- The selection loop, and the function around it over a catalog client.
use nvidia_ci.Common.{
  Bool, true, ◌||◌, not, List, [], ◌∷◌, Option, none, some, if◌then◌else◌, Result, ok, err, ◌>>=◌,
}
use nvidia_ci.Text.{Text, is_empty}
use nvidia_ci.Text.Trim.{trim_space}
use nvidia_ci.Text.Labels.{label}
use nvidia_ci.Ofed.Version.{compare_dotted_version, positive}
use nvidia_ci.Ofed.Image.{
  CatalogImage, OfedImage, ofed_version_label, catalog_repository_for_kernel,
  kernel_version_without_arch, image_matches_kernel, choose_driver_tag, map_catalog_image,
}

-- The errors of the package; a client's own error is passed on as its text.
pub data OfedError : Type 0 where
  empty_os_tag empty_architecture : OfedError
  client_error : Text → OfedError

-- ListImages of a CatalogClient
abbrev pub CatalogClient : Type 0
CatalogClient = Text → Result Text (List CatalogImage)

-- best, bestOfed and bestTag of the loop
pub record Best : Type 0 where
  pub image : CatalogImage
  pub ofed : Text
  pub tag : Text

-- What the caller asks for.
pub record Target : Type 0 where
  pub kernel_version : Text
  pub os_tag : Text
  pub architecture : Text

-- The tag of an image that fits the target, "" if the image does not fit.
unfoldable pub candidate_tag : Target → CatalogImage → Text
candidate_tag t img =
    if image_matches_kernel img t.kernel_version (kernel_version_without_arch t.kernel_version)
    then choose_driver_tag img.tags t.kernel_version t.os_tag t.architecture
    else []

-- `best == nil || compareDottedVersion(ofed, bestOfed) > 0`
unfoldable pub improves : Text → Option Best → Bool
improves ofed none = true
improves ofed (some b) = positive (compare_dotted_version ofed b.ofed)

-- One round of the loop.
unfoldable pub consider : Target → CatalogImage → Option Best → Option Best
unfolding candidate_tag improves
consider t img best =
    let tag = candidate_tag t img in
    let ofed = label ofed_version_label img.labels in
    if is_empty tag
    then best
    else if improves ofed best
    then some (record { image = img; ofed = ofed; tag = tag })
    else best

unfoldable pub consider_all : Target → List CatalogImage → Option Best → Option Best
unfolding consider
consider_all t [] best = best
consider_all t (img ∷ images) best = consider_all t images (consider t img best)

abbrev pub map_best : Target → Option Best → Option OfedImage
map_best t none = none
map_best t (some b) = map_catalog_image b.image b.tag t.kernel_version

abbrev pub from_client : Result Text (List CatalogImage) → Result OfedError (List CatalogImage)
from_client (ok images) = ok images
from_client (err e) = err (client_error e)

-- The part behind the check of the repository.
unfoldable pub select_from :
    CatalogClient → Text → Text → Text → Text → Result OfedError (Option OfedImage)
unfolding consider_all
select_from client repo kernel_version os_tag architecture =
    let tag = trim_space os_tag in
    let t : Target = record {
      kernel_version = kernel_version;
      os_tag = tag;
      architecture = architecture;
    } in
    if is_empty tag
    then err empty_os_tag
    else if is_empty architecture
    then err empty_architecture
    else do images ← from_client (client repo); ok (map_best t (consider_all t images none))

-- `ok none` is (nil, nil).
unfoldable pub select_precompiled_ofed :
    CatalogClient → Text → Text → Text → Text → Text → Result OfedError (Option OfedImage)
unfolding select_from
select_precompiled_ofed client kernel_version os_tag architecture ofed_version ofed_repository =
    if not (is_empty ofed_version) || not (is_empty ofed_repository)
    then ok none
    else elim (catalog_repository_for_kernel kernel_version) [
      | none ↦ ok none
      | some repo ↦ select_from client repo kernel_version os_tag architecture
    ]
