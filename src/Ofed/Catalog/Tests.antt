-- ===== src/Ofed/Catalog/Tests.antt =====
-- A run of the catalog client against a registry with one driver image.
use nvidia_ci.Common.{◌≡◌, refl, List, [], ◌∷◌, ok, true}
use nvidia_ci.Text.{Text, codes}
use nvidia_ci.Text.Labels.{Labels}
use nvidia_ci.Registry.Client.{Server, Response, Credentials, anonymous, basic, bearer}
use nvidia_ci.Registry.Tests.{test_library}
use nvidia_ci.Ofed.Image.{CatalogImage, OfedImage}
use nvidia_ci.Ofed.Select.{select_precompiled_ofed}
use nvidia_ci.Ofed.PullSecret.Tests.{codec}
use nvidia_ci.Ofed.Catalog.{ListError, list_images, Lists, list_images-Lists}
use nvidia_ci.Ofed.Catalog.Selected.{staging_client, IsInRegistry, select-IsInRegistry}
use nvidia_ci.Common.{some}

abbrev catalog_answer : Credentials → Response
catalog_answer anonymous = record {
  status = 401;
  www_authenticate = codes "Bearer realm=\"https://sso.redhat.com/auth\"";
  link = [];
  body = [];
}
catalog_answer (basic user password) = record {
  status = 200;
  www_authenticate = [];
  link = [];
  body = codes "t";
}
catalog_answer (bearer token) = record {
  status = 200;
  www_authenticate = [];
  link = [];
  body = codes "latest,24.10-5.14.0-4.el9.x86_64-rhcos4.16-amd64";
}

abbrev catalog_server : Server
catalog_server log req = ok (catalog_answer req.credentials)

abbrev secret_data : Labels
secret_data = (codes ".dockerconfigjson", 1 ∷ []) ∷ []

abbrev listed_images : List CatalogImage
listed_images =
    record {
      registry = codes "registry.stage.redhat.io";
      repository = codes "nvidia/doca-driver-rhel9";
      tags = codes "24.10-5.14.0-4.el9.x86_64-rhcos4.16-amd64" ∷ [];
      labels =
          (codes "kernel_version", codes "5.14.0-4.el9")
          ∷ (codes "ofed_version", codes "24.10")
          ∷ [];
    }
    ∷ []

images_listed :
    list_images 2 test_library codec catalog_server true
      (ok secret_data)
      (codes "nvidia/doca-driver-rhel9")
    ≡ ok listed_images
unfolding list_images nvidia_ci.Text.trim_prefix test_library
    nvidia_ci.Registry.Header.parse_www_authenticate nvidia_ci.Text.Trim.trim_space
    nvidia_ci.Registry.Site.validate_url nvidia_ci.Registry.Site.staging_site
    nvidia_ci.Registry.Site.is_staging_auth_host nvidia_ci.Registry.Header.next_registry_page_url
    nvidia_ci.Text.Number.is_digit nvidia_ci.Regex.is_word
    nvidia_ci.Ofed.Image.kernel_version_without_arch nvidia_ci.Text.has_suffix
    nvidia_ci.Text.trim_suffix
images_listed = refl

list_images-Lists_example :
    Lists 2 test_library codec catalog_server
      (ok secret_data)
      (codes "nvidia/doca-driver-rhel9")
      listed_images
list_images-Lists_example =
    list_images-Lists 2 test_library codec catalog_server true (ok secret_data)
      (codes "nvidia/doca-driver-rhel9") listed_images images_listed

abbrev describe : ListError → Text
describe e = codes "no images"

abbrev driver_image : OfedImage
driver_image = record {
  repository = codes "registry.stage.redhat.io/nvidia";
  image = codes "doca-driver-rhel9";
  version = codes "24.10";
  tag = codes "24.10-5.14.0-4.el9.x86_64-rhcos4.16-amd64";
}

selects :
    select_precompiled_ofed
      (staging_client 2 test_library codec catalog_server true (ok secret_data) describe)
      (codes "5.14.0-4.el9.x86_64")
      (codes "rhcos4.16")
      (codes "amd64")
      []
      []
    ≡ ok (some driver_image)
unfolding select_precompiled_ofed nvidia_ci.Ofed.Image.catalog_repository_for_kernel
    nvidia_ci.Regex.find nvidia_ci.Text.Number.is_digit nvidia_ci.Text.text_eq
    nvidia_ci.Text.Trim.trim_space list_images nvidia_ci.Text.trim_prefix test_library
    nvidia_ci.Registry.Header.parse_www_authenticate nvidia_ci.Registry.Site.validate_url
    nvidia_ci.Registry.Site.staging_site nvidia_ci.Registry.Site.is_staging_auth_host
    nvidia_ci.Registry.Header.next_registry_page_url nvidia_ci.Regex.is_word
    nvidia_ci.Ofed.Image.image_matches_kernel nvidia_ci.Text.Labels.label
    nvidia_ci.Ofed.Image.kernel_version_without_arch nvidia_ci.Text.has_suffix
    nvidia_ci.Text.trim_suffix nvidia_ci.Text.Search.contains nvidia_ci.Ofed.Image.choose_driver_tag
    nvidia_ci.Ofed.Version.compare_dotted_version nvidia_ci.Ofed.Image.map_catalog_image
    nvidia_ci.Text.Search.cut
selects = refl

select-IsInRegistry_example :
    IsInRegistry 2 test_library codec catalog_server true
      (ok secret_data)
      describe
      (codes "5.14.0-4.el9.x86_64")
      driver_image
select-IsInRegistry_example =
    select-IsInRegistry 2 test_library codec catalog_server true (ok secret_data) describe
      (codes "5.14.0-4.el9.x86_64") (codes "rhcos4.16") (codes "amd64") driver_image selects
