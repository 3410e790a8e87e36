-- ===== src/Ofed/Staging/Defs.antt =====
-- parsePrecompiledTag and catalogImagesFromTags.
use nvidia_ci.Common.{
  ℕ, zero, suc, ◌+◌, ◌||◌, List, [], ◌∷◌, Option, none, some, if◌then◌else◌, leb, length, take,
  ◌==◌,
}
use nvidia_ci.Text.{Text, codes}
use nvidia_ci.Text.Search.{last_index}
use nvidia_ci.Regex.{Regex, byte, literal, seq, star, Match, plus, digit, is_word, find_all}
use nvidia_ci.Ofed.Image.{
  CatalogImage, precompiled_ofed_registry, kernel_version_label, ofed_version_label, kernel_needle,
  kernel_version_without_arch,
}

abbrev dot : Regex
dot = literal (codes ".")

-- (\d+\.\d+\.\d+-\d+(?:\.\d+)*\.el\d[\w.]*)
abbrev pub kernel_in_tag_regexp : Regex
kernel_in_tag_regexp = seq (plus digit) (
    seq dot (
      seq (plus digit) (
        seq dot (
          seq (plus digit) (
            seq (literal (codes "-")) (
              seq (plus digit) (
                seq (star (seq dot (plus digit))) (
                  seq (literal (codes ".el"))
                    (seq digit (star (byte (λ c. is_word c || c == b'.'))))))))))))

pub record ParsedTag : Type 0 where
  pub ofed : Text
  pub kernel : Text

-- The text of the last match.
abbrev pub last_taken : List Match → Option Text
last_taken [] = none
last_taken (m ∷ []) = some m.taken
last_taken (m ∷ n ∷ ms) = last_taken (n ∷ ms)

-- What stands before the kernel, if the kernel is neither first nor last in the tag.
abbrev pub parsed_at : Text → Text → Option ℕ → Option ParsedTag
parsed_at tag kernel none = none
parsed_at tag kernel (some zero) = none
parsed_at tag kernel (some (suc i)) =
    if leb (length tag) (suc i + length (kernel_needle kernel))
    then none
    else some (record { ofed = take (suc i) tag; kernel = kernel })

abbrev pub parsed_with : Text → Option Text → Option ParsedTag
parsed_with tag none = none
parsed_with tag (some kernel) = parsed_at tag kernel (last_index (kernel_needle kernel) tag)

unfoldable pub parse_precompiled_tag : Text → Option ParsedTag
unfolding last_index find_all
parse_precompiled_tag tag = parsed_with tag (last_taken (find_all kernel_in_tag_regexp tag))

unfoldable pub image_of_tag : Text → Text → ParsedTag → CatalogImage
image_of_tag repository tag p = record {
  registry = precompiled_ofed_registry;
  repository = repository;
  tags = tag ∷ [];
  labels =
      (kernel_version_label, kernel_version_without_arch p.kernel)
      ∷ (ofed_version_label, p.ofed)
      ∷ [];
}

abbrev pub add_image : Text → Text → Option ParsedTag → List CatalogImage → List CatalogImage
add_image repository tag none images = images
add_image repository tag (some p) images = image_of_tag repository tag p ∷ images

unfoldable pub catalog_images_from_tags : Text → List Text → List CatalogImage
unfolding parse_precompiled_tag image_of_tag
catalog_images_from_tags repository [] = []
catalog_images_from_tags repository (tag ∷ tags) =
    add_image repository tag (parse_precompiled_tag tag) (catalog_images_from_tags repository tags)
