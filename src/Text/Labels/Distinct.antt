-- ===== src/Text/Labels/Distinct.antt =====
-- About maps with one entry for a key.
use nvidia_ci.Common.{
  ◌≡◌, refl, sym, ap, ◌∙◌, false, Bool-cases, inl, inr, List, [], ◌∷◌, none, some, some_inj,
  none-ne-some, false-ne-true, Has, if◌then◌else◌,
}
use nvidia_ci.Text.Defs.{Text, text_eq}
use nvidia_ci.Text.Search.{text_eq_sound, text_eq_refl}
use nvidia_ci.Text.Labels.{lookup, insert}
use nvidia_ci.Text.Labels.Laws.{lookup-insert}

abbrev pub IsMap : {V : Type 0} → List (Text × V) → Type 0
IsMap [] = Unit
IsMap ((k, v) ∷ m) = (lookup k m ≡ none) × IsMap m

module _ {V : Type 0} where
  pub insert-IsMap : (k : Text) (v : V) (m : List (Text × V)) → IsMap m → IsMap (insert k v m)
  unfolding insert
  insert-IsMap k v [] h = (unfold lookup in refl, tt)
  insert-IsMap k v ((i, w) ∷ m) (absent, h) = elim (Bool-cases (text_eq i k)) [
    | inl e ↦ rw e (absent, h)
    | inr e ↦ rw e (
      lookup-insert k i v m
          ∙ ap (λ t. if t then some v else lookup i m) (not_eq_sym i k e)
          ∙ absent,
      insert-IsMap k v m h,
    )
  ]
    where
      not_eq_sym : (s t : Text) → text_eq s t ≡ false → text_eq t s ≡ false
      not_eq_sym s t e = elim (Bool-cases (text_eq t s)) [
        | inl f ↦
            absurd (false-ne-true (sym e ∙ ap (text_eq s) (text_eq_sound t s f) ∙ text_eq_refl s))
        | inr f ↦ f
      ]

  pub Has→lookup :
      (k : Text) (v : V) (m : List (Text × V)) → IsMap m → Has (k, v) m → lookup k m ≡ some v
  unfolding lookup
  Has→lookup k v [] h has = absurd has
  Has→lookup k v ((i, w) ∷ m) (absent, h) (inl e) =
      ap (λ (t : Text × V). if text_eq i t.0 then some w else lookup t.0 m) e
      ∙ ap (λ t. if t then some w else lookup i m) (text_eq_refl i)
      ∙ ap (λ (t : Text × V). some t.1) (sym e)
  Has→lookup k v ((i, w) ∷ m) (absent, h) (inr has) = elim (Bool-cases (text_eq i k)) [
    | inl e ↦ absurd (
        none-ne-some
          (sym absent ∙ ap (λ t. lookup t m) (text_eq_sound i k e) ∙ Has→lookup k v m h has))
    | inr e ↦ ap (λ t. if t then some w else lookup k m) e ∙ Has→lookup k v m h has
  ]

  pub lookup→Has : (k : Text) (v : V) (m : List (Text × V)) → lookup k m ≡ some v → Has (k, v) m
  unfolding lookup
  lookup→Has k v [] h = absurd (none-ne-some h)
  lookup→Has k v ((i, w) ∷ m) h = elim (Bool-cases (text_eq i k)) [
    | inl e ↦ inl (
        pair k i v w (sym (text_eq_sound i k e))
          (sym (some_inj (sym (ap (λ t. if t then some w else lookup k m) e) ∙ h))))
    | inr e ↦ inr (lookup→Has k v m (sym (ap (λ t. if t then some w else lookup k m) e) ∙ h))
  ]
    where
      pair : (a b : Text) (x y : V) → a ≡ b → x ≡ y → ◌≡◌ {A = Text × V} (a, x) (b, y)
      pair a b x y p q = ap (λ (t : Text). (t, x)) p ∙ ap (λ (t : V). (b, t)) q
