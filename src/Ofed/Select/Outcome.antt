-- ===== src/Ofed/Select/Outcome.antt =====
-- The image that SelectPrecompiledOFED returns.
use nvidia_ci.Common.{
  false-ne-true, sym, ◌≡◌, inl, inr, List, [], Option, none, some, Has, Bool-cases, Option-cases,
  Result, ok, err, >>=-eq-ok, ok_inj, err-ne-ok,
}
use nvidia_ci.Text.{Text, is_empty}
use nvidia_ci.Text.Trim.{trim_space}
use nvidia_ci.Ofed.Image.{CatalogImage, OfedImage, catalog_repository_for_kernel, map_catalog_image}
use nvidia_ci.Ofed.Select.Defs.{
  CatalogClient, Best, Target, OfedError, consider_all, map_best, from_client, select_from,
  select_precompiled_ofed,
}
use nvidia_ci.Ofed.Image.{image_matches_kernel, kernel_version_without_arch}
use nvidia_ci.Ofed.Image.Laws.{TagFits, choose_driver_tag-TagFits}
use nvidia_ci.Ofed.Select.Defs.{candidate_tag}
use nvidia_ci.Ofed.Select.Loop.{Fits, IsBest, Chosen, select_loop-Chosen}

-- What the caller asks for, with the OS tag trimmed.
abbrev pub target : Text → Text → Text → Target
target kernel_version os_tag architecture = record {
  kernel_version = kernel_version;
  os_tag = trim_space os_tag;
  architecture = architecture;
}

-- An image `o` was selected from the client's answer for the kernel's repository.
pub record Selected (client : CatalogClient) (t : Target) (o : OfedImage) : Type 0 where
  pub repo : Text
  pub for_kernel : catalog_repository_for_kernel t.kernel_version ≡ some repo
  pub images : List CatalogImage
  pub answer : client repo ≡ ok images
  pub best : Best
  pub is_best : IsBest (λ img. Has img images) t best
  pub has_tag : Has best.tag best.image.tags
  pub tag_fits : TagFits t.kernel_version t.os_tag t.architecture best.tag
  pub mapped : map_catalog_image best.image best.tag t.kernel_version ≡ some o

candidate_tag-TagFits :
    (t : Target) (img : CatalogImage)
    → Fits t img
    → Has (candidate_tag t img) img.tags
      × TagFits t.kernel_version t.os_tag t.architecture (candidate_tag t img)
unfolding candidate_tag
candidate_tag-TagFits t img h =
    elim (Bool-cases
      (image_matches_kernel img t.kernel_version (kernel_version_without_arch t.kernel_version))) [
        | inl e ↦ rw e (
            choose_driver_tag-TagFits img.tags t.kernel_version t.os_tag t.architecture (rw e at h))
        | inr e ↦ absurd (false-ne-true (sym (rw e at h)))
      ]

best-TagFits :
    {In : CatalogImage → Type 0} {t : Target} {b : Best}
    → IsBest In t b
    → Has b.tag b.image.tags × TagFits t.kernel_version t.os_tag t.architecture b.tag
best-TagFits {In} {t} {b} h = rw h.tag_of (candidate_tag-TagFits t b.image h.fits)

from_client-ok :
    (r : Result Text (List CatalogImage)) {images : List CatalogImage}
    → from_client r ≡ ok images
    → r ≡ ok images
from_client-ok (ok images) h = cc
from_client-ok (err e) h = cc

of_best :
    {In : CatalogImage → Type 0} {t : Target} (best : Option Best) {o : OfedImage}
    → Chosen In t best
    → map_best t best ≡ some o
    → (b : Best) × IsBest In t b × (map_catalog_image b.image b.tag t.kernel_version ≡ some o)
of_best none c h = cc
of_best (some b) c h = (b, c, h)

select_from-Selected :
    (client : CatalogClient) (repo k os arch : Text) {o : OfedImage}
    → catalog_repository_for_kernel k ≡ some repo
    → select_from client repo k os arch ≡ ok (some o)
    → Selected client (target k os arch) o
unfolding select_from
select_from-Selected client repo k os arch {o} found h =
    elim (Bool-cases (is_empty (trim_space os))) [
      | inl e ↦ absurd (err-ne-ok (rw e at h))
      | inr e ↦ elim (Bool-cases (is_empty arch)) [
        | inl e' ↦ absurd (err-ne-ok (rw (e, e') at h))
        | inr e' ↦
            let (images, answer, chosen) =
              >>=-eq-ok (from_client (client repo)) _ (rw (e, e') at h) in
            let (best, is_best, mapped) =
              of_best (consider_all (target k os arch) images none)
                (select_loop-Chosen (target k os arch) images) (ok_inj chosen) in
            record {
              repo = repo;
              for_kernel = found;
              images = images;
              answer = from_client-ok (client repo) answer;
              best = best;
              is_best = is_best;
              has_tag = (best-TagFits is_best).0;
              tag_fits = (best-TagFits is_best).1;
              mapped = mapped;
            }
      ]
    ]

-- A selected image stands in the client's answer for the kernel's repository, under a tag that
-- fits the target; of the images there that fit, none has a later OFED version.
pub select-Selected :
    (client : CatalogClient) (k os arch : Text) (o : OfedImage)
    → select_precompiled_ofed client k os arch [] [] ≡ ok (some o)
    → Selected client (target k os arch) o
unfolding select_precompiled_ofed
select-Selected client k os arch o h = elim (Option-cases (catalog_repository_for_kernel k)) [
  | inl e ↦ absurd (none_some (rw (e, select_precompiled_ofed) at h))
  | inr (repo, e) ↦
      select_from-Selected client repo k os arch e (rw (e, select_precompiled_ofed) at h)
]
  where
    none_some : ◌≡◌ {A = Result OfedError (Option OfedImage)} (ok none) (ok (some o)) → ⊥
    none_some p = cc
