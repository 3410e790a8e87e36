-- ===== src/Ofed/Catalog.antt =====
-- ListImages and stagingRegistryAuth of pkg/nvidianetwork/stagingregistry.go: the catalog client that
-- joins the pull secret, the registry's tags and the catalog images.
pub mod Selected
mod Tests
use nvidia_ci.Common.{
  ℕ, Bool, ◌≡◌, refl, sym, List, [], Option, if◌then◌else◌, Result, ok, err, ◌>>=◌, >>=-eq-ok,
  err-ne-ok, ok_inj, Has, subst, inl, inr, Bool-cases,
}
use nvidia_ci.Text.{Text}
use nvidia_ci.Text.Labels.{Labels, lookup}
use nvidia_ci.Ofed.Image.{CatalogImage}
use nvidia_ci.Ofed.PullSecret.{
  Codec, SecretError, docker_auth_from_secret, staging_registry_auth_keys,
}
use nvidia_ci.Ofed.PullSecret.Ensure.{docker_config_json_key}
use nvidia_ci.Ofed.Staging.{catalog_images_from_tags}
use nvidia_ci.Ofed.Staging.Tags.{IsImageOf, catalog_images_from_tags-IsImageOf}
use nvidia_ci.Registry.Site.{Library, staging_site}
use nvidia_ci.Registry.Client.{Server, RegistryError}
use nvidia_ci.Registry.Tags.{list_registry_tags}

pub data ListError : Type 0 where
  no_cluster_client : ListError
  secret_unreadable : Text → ListError
  secret_error : SecretError → ListError
  registry_error : RegistryError → ListError

abbrev pub from_secret : Result SecretError Text → Result ListError Text
from_secret (ok auth) = ok auth
from_secret (err e) = err (secret_error e)

-- stagingRegistryAuth; the cluster answers with the secret's data.
unfoldable pub staging_registry_auth : Codec → Result Text Labels → Result ListError Text
unfolding docker_auth_from_secret lookup
staging_registry_auth codec (err e) = err (secret_unreadable e)
staging_registry_auth codec (ok data_of) = from_secret (
    docker_auth_from_secret codec (lookup docker_config_json_key data_of)
      staging_registry_auth_keys)

abbrev pub from_tags : Result RegistryError (List Text) → Result ListError (List Text)
from_tags (ok tags) = ok tags
from_tags (err e) = err (registry_error e)

abbrev pub list_staging_tags : ℕ → Library → Server → Text → Text → Result RegistryError (List Text)
list_staging_tags rounds lib server repository auth =
    (list_registry_tags rounds lib (staging_site repository) server auth []).0

-- ListImages, with whether a cluster client is at hand.
unfoldable pub list_images :
    ℕ
    → Library
    → Codec
    → Server
    → Bool
    → Result Text Labels
    → Text
    → Result ListError (List CatalogImage)
unfolding staging_registry_auth list_registry_tags catalog_images_from_tags
list_images rounds lib codec server has_client secret repository =
    let listing = (do
      auth ← staging_registry_auth codec secret
      tags ← from_tags (list_staging_tags rounds lib server repository auth)
      ok (catalog_images_from_tags repository tags)) in
    if has_client then listing else err no_cluster_client

-- The images are those of the tags that the registry lists for the credentials of the pull secret.
pub record Lists (rounds : ℕ) (lib : Library) (codec : Codec) (server : Server)
    (secret : Result Text Labels) (repository : Text) (images : List CatalogImage) : Type 0 where
  pub auth : Text
  pub from_pull_secret : staging_registry_auth codec secret ≡ ok auth
  pub tags : List Text
  pub listed : list_staging_tags rounds lib server repository auth ≡ ok tags
  pub of_tags : (img : CatalogImage) → Has img images → IsImageOf repository tags img

from_tags-ok :
    (r : Result RegistryError (List Text)) {tags : List Text} → from_tags r ≡ ok tags → r ≡ ok tags
from_tags-ok (ok tags) h = cc
from_tags-ok (err e) h = cc

-- If the catalog client succeeds, it has read the staging credentials of the pull secret, the
-- registry has listed tags for them, and each image is the image of one of those tags.
pub list_images-Lists :
    (rounds : ℕ) (lib : Library) (codec : Codec) (server : Server) (has_client : Bool)
    (secret : Result Text Labels) (repository : Text) (images : List CatalogImage)
    → list_images rounds lib codec server has_client secret repository ≡ ok images
    → Lists rounds lib codec server secret repository images
unfolding list_images
list_images-Lists rounds lib codec server has_client secret repository images h =
    elim (Bool-cases has_client) [
      | inr e ↦ absurd (err-ne-ok (rw e at h))
      | inl e ↦
          let (auth, read, h') = >>=-eq-ok (staging_registry_auth codec secret) _ (rw e at h) in
          let (tags, listed, built) = >>=-eq-ok _ _ h' in
          record {
            auth = auth;
            from_pull_secret = read;
            tags = tags;
            listed = from_tags-ok _ listed;
            of_tags = λ img has.
                catalog_images_from_tags-IsImageOf repository tags img
                  (subst (λ x. Has img x) (sym (ok_inj built)) has);
          }
    ]
