-- ===== src/Ofed/Explicit/Defs.antt =====
-- The parse of a complete image reference, and the checks of its tag and of the workers' tags.
use nvidia_ci.Common.{
  Bool, ◌&&◌, ◌||◌, not, List, [], ◌++◌, Option, none, some, if◌then◌else◌, Result, ok, err, ◌>>=◌,
  any,
}
use nvidia_ci.Text.{
  Text, codes, text_eq, is_empty, has_prefix, trim_prefix, has_suffix, trim_suffix,
}
use nvidia_ci.Text.Search.{Pieces, cut, contains_any}
use nvidia_ci.Text.Trim.{trim_space}
use nvidia_ci.Ofed.Image.{
  CatalogImage, OfedImage, pull_spec, precompiled_ofed_registry, precompiled_ofed_rhel9_repo,
  precompiled_ofed_rhel10_repo, map_catalog_image,
}
use nvidia_ci.Ofed.Select.{CatalogClient}

-- The errors, each with the text that its message quotes.
pub data ExplicitError : Type 0 where
  worker_required image_required : ExplicitError
  unsupported bad_suffix no_base_version unavailable client_failed : Text → ExplicitError

abbrev pub registry_slash : Text
registry_slash = precompiled_ofed_registry ++ codes "/"

-- "-kernel-os-architecture"
abbrev pub worker_suffix : Text → Text → Text → Text
worker_suffix kernel_version os_tag architecture =
    codes "-" ++ (kernel_version ++ (codes "-" ++ (os_tag ++ (codes "-" ++ architecture))))

unfoldable pub is_driver_repository : Text → Bool
is_driver_repository repository =
    text_eq repository precompiled_ofed_rhel9_repo
    || text_eq repository precompiled_ofed_rhel10_repo

-- The long condition of the second error.
unfoldable pub is_supported : Pieces → Bool
unfolding is_driver_repository
is_supported parts =
    has_prefix registry_slash parts.before
    && parts.found
    && not (is_empty parts.after)
    && not (contains_any (codes ":@/") parts.after)
    && is_driver_repository (trim_prefix registry_slash parts.before)

-- The last check, with the version replaced by the tag without the suffix.
unfoldable pub with_base_version : Text → Text → Option OfedImage → Result ExplicitError OfedImage
with_base_version tag suffix none = err (no_base_version tag)
with_base_version tag suffix (some selected) =
    let version = trim_suffix suffix tag in
    if has_suffix (codes "-") version
    then err (no_base_version tag)
    else ok (record selected { version = version })

unfoldable pub catalog_image_of : Text → CatalogImage
catalog_image_of repository = record {
  registry = [];
  repository = repository;
  tags = [];
  labels = [];
}

unfoldable pub parse_parts : Text → Pieces → Text → Text → Text → Result ExplicitError OfedImage
unfolding is_supported with_base_version catalog_image_of
parse_parts spec parts kernel_version os_tag architecture =
    let repository = trim_prefix registry_slash parts.before in
    let tag = parts.after in
    let suffix = worker_suffix kernel_version os_tag architecture in
    if not (is_supported parts)
    then err (unsupported spec)
    else if not (has_suffix suffix tag)
    then err (bad_suffix tag)
    else with_base_version tag suffix
        (map_catalog_image (catalog_image_of repository) tag kernel_version)

unfoldable pub parse_explicit : Text → Text → Text → Text → Result ExplicitError OfedImage
unfolding parse_parts
parse_explicit pull_spec kernel_version os_tag architecture =
    let spec = trim_space pull_spec in
    let os = trim_space os_tag in
    if is_empty kernel_version || is_empty os || is_empty architecture
    then err worker_required
    else parse_parts spec (cut (codes ":") spec) kernel_version os architecture

-- The two loops over the images and their tags.
unfoldable pub lists_tag : Text → List CatalogImage → Bool
lists_tag tag images = any (λ image. any (λ t. text_eq t tag) image.tags) images

abbrev pub from_registry :
    OfedImage → Result Text (List CatalogImage) → Result ExplicitError (Unit {0})
from_registry selected (err e) = err (client_failed e)
from_registry selected (ok images) =
    if lists_tag selected.tag images then ok tt else err (unavailable (pull_spec selected))

-- CheckPrecompiledOFEDTag; `none` is nil.
unfoldable pub check_tag : CatalogClient → Option OfedImage → Result ExplicitError (Unit {0})
check_tag client none = err image_required
check_tag client (some selected) =
    from_registry selected (client (codes "nvidia/" ++ selected.image))

-- The reference that another worker needs.
unfoldable pub worker_pull_spec : OfedImage → Text → Text → Text → Text
worker_pull_spec selected kernel_version os_tag architecture =
    selected.repository
    ++ (codes "/"
        ++ (selected.image
            ++ (codes ":"
                ++ (selected.version
                    ++ worker_suffix kernel_version (trim_space os_tag) architecture))))

-- CheckPrecompiledOFEDWorkerTag
unfoldable pub check_worker_tag :
    CatalogClient → Option OfedImage → Text → Text → Text → Result ExplicitError (Unit {0})
unfolding parse_explicit check_tag worker_pull_spec
check_worker_tag client none kernel_version os_tag architecture = err image_required
check_worker_tag client (some selected) kernel_version os_tag architecture = do
  worker_image ←
      parse_explicit (worker_pull_spec selected kernel_version os_tag architecture) kernel_version
        os_tag architecture
  check_tag client (some worker_image)
