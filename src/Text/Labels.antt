-- ===== src/Text/Labels.antt =====
-- Go's map[string]string as an association list; a missing key reads as "".
pub mod Laws
pub mod Distinct
use nvidia_ci.Common.{Bool, List, [], ◌∷◌, Option, none, some, if◌then◌else◌, ◌≡◌, refl}
use nvidia_ci.Text.Defs.{Text, text_eq}

-- map[string]V
module _ {ℓ} {V : Type ℓ} where
  -- v, ok := m[key]
  unfoldable pub lookup : Text → List (Text × V) → Option V
  unfolding text_eq
  lookup key [] = none
  lookup key ((k, v) ∷ m) = if text_eq k key then some v else lookup key m

  -- m[key] = v
  unfoldable pub insert : Text → V → List (Text × V) → List (Text × V)
  unfolding text_eq
  insert key v [] = (key, v) ∷ []
  insert key v ((k, w) ∷ m) = if text_eq k key then (k, v) ∷ m else (k, w) ∷ insert key v m

abbrev pub Labels : Type 0
Labels = List (Text × Text)

-- delete(m, key)
unfoldable pub delete_key : Text → Labels → Labels
unfolding text_eq
delete_key key [] = []
delete_key key ((k, v) ∷ m) =
    let rest = delete_key key m in if text_eq k key then rest else (k, v) ∷ rest

-- labels[key]
unfoldable pub label : Text → Labels → Text
unfolding lookup
label key m = elim (lookup key m) [ none ↦ [] | some v ↦ v ]
