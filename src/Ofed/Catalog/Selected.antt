-- ===== src/Ofed/Catalog/Selected.antt =====
-- The selection over the catalog client of the staging registry.
use nvidia_ci.Common.{
  ℕ, Bool, ◌≡◌, sym, ap, List, [], ◌∷◌, some, Result, ok, err, Has, subst, inl, inr,
}
use nvidia_ci.Text.{Text}
use nvidia_ci.Text.Labels.{Labels}
use nvidia_ci.Ofed.Image.{CatalogImage, OfedImage, catalog_repository_for_kernel}
use nvidia_ci.Ofed.Image.Laws.{map_catalog_image-Maps}
use nvidia_ci.Ofed.PullSecret.{Codec}
use nvidia_ci.Ofed.Staging.{image_of_tag}
use nvidia_ci.Ofed.Staging.Tags.{IsImageOf}
use nvidia_ci.Ofed.Select.{CatalogClient, select_precompiled_ofed}
use nvidia_ci.Ofed.Select.Outcome.{select-Selected}
use nvidia_ci.Registry.Site.{Library}
use nvidia_ci.Registry.Client.{Server}
use nvidia_ci.Ofed.Catalog.{
  ListError, list_images, list_staging_tags, staging_registry_auth, list_images-Lists,
}

-- The error as its text.
abbrev pub described :
    (ListError → Text) → Result ListError (List CatalogImage) → Result Text (List CatalogImage)
described describe (ok images) = ok images
described describe (err e) = err (describe e)

described-ok :
    (describe : ListError → Text) (r : Result ListError (List CatalogImage))
    {images : List CatalogImage}
    → described describe r ≡ ok images
    → r ≡ ok images
described-ok describe (ok images) h = cc
described-ok describe (err e) h = cc

-- The only tag of an image that was built of a tag.
only_tag :
    (repository : Text) (tags : List Text) (img : CatalogImage) (t : Text)
    → IsImageOf repository tags img
    → Has t img.tags
    → Has t tags
unfolding image_of_tag
only_tag repository tags img t i has =
    of_only (subst (λ x. Has t x) (ap (λ (c : CatalogImage). c.tags) i.built) has)
  where
    of_only : Has t (i.tag ∷ []) → Has t tags
    of_only (inl e) = subst (λ x. Has x tags) (sym e) i.has_tag
    of_only (inr n) = absurd n

module _ (rounds : ℕ) (lib : Library) (codec : Codec) (server : Server) (has_client : Bool)
    (secret : Result Text Labels) (describe : ListError → Text) where
  -- NewStagingCatalogClient
  abbrev pub staging_client : CatalogClient
  staging_client repository =
      described describe (list_images rounds lib codec server has_client secret repository)

  -- The registry lists the image's tag in the kernel's repository, for the pull secret's credentials.
  pub record IsInRegistry (kernel_version : Text) (o : OfedImage) : Type 0 where
    pub repository : Text
    pub for_kernel : catalog_repository_for_kernel kernel_version ≡ some repository
    pub auth : Text
    pub from_pull_secret : staging_registry_auth codec secret ≡ ok auth
    pub tags : List Text
    pub listed : list_staging_tags rounds lib server repository auth ≡ ok tags
    pub has_tag : Has o.tag tags

  -- An image that is selected with the staging registry's client has a tag that the registry listed
  -- in the repository for the kernel, for the credentials of the pull secret.
  pub select-IsInRegistry :
      (k os arch : Text) (o : OfedImage)
      → select_precompiled_ofed staging_client k os arch [] [] ≡ ok (some o)
      → IsInRegistry k o
  select-IsInRegistry k os arch o h =
      let s = select-Selected staging_client k os arch o h in
      let l =
        list_images-Lists rounds lib codec server has_client secret s.repo s.images
          (described-ok describe _ s.answer) in
      let m = map_catalog_image-Maps s.best.image s.best.tag k s.mapped in
      record {
        repository = s.repo;
        for_kernel = s.for_kernel;
        auth = l.auth;
        from_pull_secret = l.from_pull_secret;
        tags = l.tags;
        listed = l.listed;
        has_tag =
            subst (λ x. Has x l.tags) (sym m.same_tag)
              (only_tag s.repo l.tags s.best.image s.best.tag
                (l.of_tags s.best.image s.is_best.member) s.has_tag);
      }
