-- ===== src/Ofed/Tests.antt =====
-- Runs of the image selection and of the checks of a requested image on concrete inputs.
use nvidia_ci.Common.{String, ◌≡◌, refl, ◌↔◌, List, [], ◌∷◌, some, ok, inl, inr}
use nvidia_ci.Text.{Text, codes}
use nvidia_ci.Ofed.Image.{CatalogImage, OfedImage}
use nvidia_ci.Ofed.Select.{CatalogClient, select_precompiled_ofed}
use nvidia_ci.Ofed.Select.Loop.{Chosen, select_loop-Chosen}
use nvidia_ci.Ofed.Select.{consider_all}
use nvidia_ci.Common.{Has, none}
use nvidia_ci.Ofed.Version.{compare_dotted_version, Orders, number, compare_dotted_version-Orders}
use nvidia_ci.Text.Trim.{trim_space}
use nvidia_ci.Ofed.Explicit.{parse_explicit, check_tag, check_worker_tag}
use nvidia_ci.Ofed.Explicit.RoundTrip.{Parses, parse_explicit-Parses}
use nvidia_ci.Ofed.Explicit.Workers.{IsListed, check_tag_iff, check_worker_tag_self}
use nvidia_ci.Text.{is_empty}
use nvidia_ci.Text.Labels.{Labels, label}
use nvidia_ci.Common.{true, false}
use nvidia_ci.Ofed.DriverPods.{Pod, verify_ofed_driver_pods}
use nvidia_ci.Ofed.DriverPods.Evidence.{Uses, verify_ofed_driver_pods-Uses}
use nvidia_ci.Ofed.Image.{image_matches_kernel, kernel_version_without_arch}
use nvidia_ci.Ofed.Staging.{
  ParsedTag, parse_precompiled_tag, image_of_tag, catalog_images_from_tags,
}
use nvidia_ci.Ofed.Staging.Tags.{
  IsImageOf, image_of_tag-matches, catalog_images_from_tags-IsImageOf,
}
use nvidia_ci.Ofed.NodeOs.{node_os_tag}
use nvidia_ci.Ofed.Select.Outcome.{target, Selected, select-Selected}

abbrev kernel : Text
kernel = codes "5.14.0-4.el9.x86_64"

abbrev catalog_image : String → String → CatalogImage
catalog_image version tag = record {
  registry = [];
  repository = codes "nvidia/doca-driver-rhel9";
  tags = codes tag ∷ [];
  labels =
      (codes "kernel_version", codes "5.14.0-4.el9") ∷ (codes "ofed_version", codes version) ∷ [];
}

abbrev catalog_images : List CatalogImage
catalog_images =
    catalog_image "24.9" "24.9-5.14.0-4.el9.x86_64-rhcos4.16-amd64"
    ∷ catalog_image "24.10" "24.10-5.14.0-4.el9.x86_64-rhcos4.16-amd64"
    ∷ catalog_image "25.1" "25.1-5.14.0-4.el9.x86_64-rhcos4.17-amd64"
    ∷ []

abbrev client : CatalogClient
client repo = ok catalog_images

abbrev latest_image : OfedImage
latest_image = record {
  repository = codes "registry.stage.redhat.io/nvidia";
  image = codes "doca-driver-rhel9";
  version = codes "24.10";
  tag = codes "24.10-5.14.0-4.el9.x86_64-rhcos4.16-amd64";
}

selected :
    select_precompiled_ofed client kernel (codes " rhcos4.16") (codes "amd64") [] []
    ≡ ok (some latest_image)
unfolding select_precompiled_ofed nvidia_ci.Ofed.Image.catalog_repository_for_kernel
    nvidia_ci.Regex.find nvidia_ci.Text.Number.is_digit nvidia_ci.Text.text_eq
    nvidia_ci.Text.Trim.trim_space nvidia_ci.Ofed.Image.image_matches_kernel
    nvidia_ci.Text.Labels.label nvidia_ci.Ofed.Image.kernel_version_without_arch
    nvidia_ci.Text.has_suffix nvidia_ci.Text.trim_suffix nvidia_ci.Text.Search.contains
    nvidia_ci.Ofed.Image.choose_driver_tag nvidia_ci.Ofed.Version.compare_dotted_version
    nvidia_ci.Ofed.Image.map_catalog_image nvidia_ci.Text.Search.cut
selected = refl

select-Selected_example :
    Selected client (target kernel (codes " rhcos4.16") (codes "amd64")) latest_image
select-Selected_example =
    select-Selected client kernel (codes " rhcos4.16") (codes "amd64") latest_image selected

select_loop-Chosen_example :
    Chosen
      (λ img. Has img catalog_images)
      (target kernel (codes "rhcos4.16") (codes "amd64"))
      (consider_all (target kernel (codes "rhcos4.16") (codes "amd64")) catalog_images none)
select_loop-Chosen_example =
    select_loop-Chosen (target kernel (codes "rhcos4.16") (codes "amd64")) catalog_images

compare_dotted_version-Orders_example :
    Orders
      (number (codes "24.9-2"))
      (number (codes "24.10"))
      (compare_dotted_version (codes "24.9-2") (codes "24.10"))
compare_dotted_version-Orders_example =
    compare_dotted_version-Orders (codes "24.9-2") (codes "24.10")

abbrev spec : Text
spec =
    codes
      " registry.stage.redhat.io/nvidia/doca-driver-rhel9:24.10-5.14.0-4.el9.x86_64-rhcos4.16-amd64 "

parsed : parse_explicit spec kernel (codes "rhcos4.16") (codes "amd64") ≡ ok latest_image
unfolding parse_explicit trim_space nvidia_ci.Text.has_prefix nvidia_ci.Text.Search.cut
    nvidia_ci.Text.Search.contains_any nvidia_ci.Text.text_eq nvidia_ci.Text.trim_prefix
    nvidia_ci.Text.has_suffix nvidia_ci.Ofed.Image.map_catalog_image nvidia_ci.Text.trim_suffix
parsed = refl

parse_explicit-Parses_example :
    Parses (trim_space spec) kernel (trim_space (codes "rhcos4.16")) (codes "amd64") latest_image
parse_explicit-Parses_example =
    parse_explicit-Parses spec kernel (codes "rhcos4.16") (codes "amd64") latest_image parsed

check_worker_tag_self_example :
    check_worker_tag client (some latest_image) kernel (codes "rhcos4.16") (codes "amd64")
    ≡ check_tag client (some latest_image)
check_worker_tag_self_example =
    check_worker_tag_self client spec kernel (codes "rhcos4.16") (codes "amd64") latest_image parsed

check_tag_iff_example :
    (check_tag client (some latest_image) ≡ ok tt) ↔ IsListed client latest_image
check_tag_iff_example = check_tag_iff client latest_image

abbrev driver_pod : Text → Text → Pod
driver_pod node id = record {
  node_name = node;
  phase_running = true;
  deleting = false;
  container_statuses =
      record { image = codes "i"; ready = true; is_running = true; image_id = id } ∷ [];
}

abbrev driver_pods : List Pod
driver_pods = driver_pod (codes "w1") (codes "id1") ∷ driver_pod (codes "w2") (codes "id2") ∷ []

abbrev image_ids : Labels
image_ids = (codes "w1", codes "id1") ∷ (codes "w2", codes "id2") ∷ []

verified :
    verify_ofed_driver_pods driver_pods (codes "i") (codes "w1" ∷ codes "w2" ∷ []) ≡ ok image_ids
unfolding verify_ofed_driver_pods trim_space
verified = refl

verify_ofed_driver_pods-Uses_example :
    Uses driver_pods (codes "i") (codes "w2") (label (codes "w2") image_ids)
verify_ofed_driver_pods-Uses_example =
    verify_ofed_driver_pods-Uses driver_pods (codes "i") (codes "w1" ∷ codes "w2" ∷ []) image_ids
      verified (codes "w2") (inr (inl refl))

abbrev tag : Text
tag = codes "24.10-5.14.0-4.el9.x86_64-rhcos4.16-amd64"

abbrev parsed_tag : ParsedTag
parsed_tag = record { ofed = codes "24.10"; kernel = kernel }

tag_parsed : parse_precompiled_tag tag ≡ some parsed_tag
unfolding parse_precompiled_tag nvidia_ci.Text.Number.is_digit nvidia_ci.Regex.is_word
tag_parsed = refl

image_of_tag-matches_example :
    image_matches_kernel
      (image_of_tag (codes "nvidia/doca-driver-rhel9") tag parsed_tag)
      kernel
      (kernel_version_without_arch kernel)
    ≡ true
image_of_tag-matches_example =
    image_of_tag-matches (codes "nvidia/doca-driver-rhel9") tag parsed_tag tag_parsed

catalogued :
    Has
      (image_of_tag (codes "nvidia/doca-driver-rhel9") tag parsed_tag)
      (catalog_images_from_tags (codes "nvidia/doca-driver-rhel9") (codes "latest" ∷ tag ∷ []))
unfolding catalog_images_from_tags nvidia_ci.Text.Number.is_digit nvidia_ci.Regex.is_word
catalogued = inl refl

catalog_images_from_tags-IsImageOf_example :
    IsImageOf
      (codes "nvidia/doca-driver-rhel9")
      (codes "latest" ∷ tag ∷ [])
      (image_of_tag (codes "nvidia/doca-driver-rhel9") tag parsed_tag)
catalog_images_from_tags-IsImageOf_example =
    catalog_images_from_tags-IsImageOf (codes "nvidia/doca-driver-rhel9")
      (codes "latest" ∷ tag ∷ []) (image_of_tag (codes "nvidia/doca-driver-rhel9") tag parsed_tag)
      catalogued

os_tagged : node_os_tag [] (codes "4.16.3") ≡ ok (codes "rhcos4.16")
unfolding node_os_tag trim_space label nvidia_ci.Ofed.Image.cluster_minor nvidia_ci.Text.Split.split
os_tagged = refl
