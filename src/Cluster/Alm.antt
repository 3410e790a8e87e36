-- ===== src/Cluster/Alm.antt =====
-- pkg/olm/almexamples.go: the entries of a CSV's alm-examples.
use nvidia_ci.Common.{
  List, [], ◌∷◌, none, some, if◌then◌else◌, is_nil, get_elem?, Result, ok, err, ◌>>=◌,
}
use nvidia_ci.Text.{Text, text_eq, is_empty}
use nvidia_ci.Text.Number.{ℤ, pos, negsuc}

-- The errors, with those of Unmarshal.
pub data AlmError : Type 0 where
  empty_example no_examples : AlmError
  bad_examples : Text → AlmError
  no_item : ℤ → AlmError
  bad_type : Text → AlmError
  no_kind : Text → AlmError

-- Raw is json.RawMessage; the second parameter decodes the text, the third an entry's kind.
module _ {Raw : Type 0} (unmarshal : Text → Result Text (List Raw)) where
  -- GetALMExampleItems
  unfoldable pub alm_example_items : Text → Result AlmError (List Raw)
  alm_example_items alm_example =
      if is_empty alm_example
      then err empty_example
      else elim (unmarshal alm_example) [ err e ↦ err (bad_examples e) | ok examples ↦ ok examples ]

  abbrev pub item_at : ℤ → List Raw → Result AlmError Raw
  item_at (negsuc n) examples = err (no_item (negsuc n))
  item_at (pos n) examples = elim (get_elem? examples n) [
    | none ↦ err (no_item (pos n))
    | some item ↦ ok item
  ]

  -- GetALMExampleItem
  unfoldable pub alm_example_item : ℤ → Text → Result AlmError Raw
  unfolding alm_example_items
  alm_example_item index alm_example = do
    examples ← alm_example_items alm_example
    item_at index examples

  module _ (kind_of : Raw → Result Text Text) where
    -- The loop over the entries.
    unfoldable pub first_of_kind : Text → List Raw → Result AlmError Raw
    first_of_kind kind [] = err (no_kind kind)
    first_of_kind kind (item ∷ items) =
        let rest = first_of_kind kind items in
        elim (kind_of item) [
          | err e ↦ err (bad_type e)
          | ok k ↦ if text_eq k kind then ok item else rest
        ]

    -- GetALMExampleByKind
    unfoldable pub alm_example_by_kind : Text → Text → Result AlmError Raw
    unfolding alm_example_items first_of_kind
    alm_example_by_kind alm_example kind = do
      items ← alm_example_items alm_example
      if is_nil items then err no_examples else first_of_kind kind items
