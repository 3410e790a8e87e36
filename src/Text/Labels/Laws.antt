-- ===== src/Text/Labels/Laws.antt =====
-- Reading a map after a write.
use nvidia_ci.Common.{true, ◌≡◌, refl, ◌↔◌, List, [], ◌∷◌, some, arith, if◌then◌else◌}
use nvidia_ci.Text.Defs.{Text, text_eq}
use nvidia_ci.Text.Search.{text_eq_sound, text_eq_refl}
use nvidia_ci.Text.Labels.{lookup, insert, label, Labels}

pub text_eq_iff : (s t : Text) → (text_eq s t ≡ true) ↔ (s ≡ t)
text_eq_iff s t = (text_eq_sound s t, λ e. rw e (text_eq_refl t))

module _ {ℓ} {V : Type ℓ} where
  pub lookup-insert :
      (k j : Text) (v : V) (m : List (Text × V))
      → lookup j (insert k v m) ≡ (if text_eq k j then some v else lookup j m)
  unfolding lookup insert
  lookup-insert k j v [] = refl
  lookup-insert k j v ((i, w) ∷ m) =
      ground (arith, text_eq_iff k j, text_eq_iff i k, text_eq_iff i j, lookup-insert k j v m)

pub label-insert :
    (k j v : Text) (m : Labels) → label j (insert k v m) ≡ (if text_eq k j then v else label j m)
unfolding label
label-insert k j v m = ground (arith, lookup-insert k j v m)
