-- ===== src/Cluster/Olm/CatalogSource.antt =====
-- pkg/olm/catalogsource.go: the methods of CatalogSourceBuilder.
use nvidia_ci.Common.{Bool, true, false, [], List, Option, none, some, if◌then◌else◌, Result}
use nvidia_ci.Text.{Text, codes, text_eq, is_empty}
use nvidia_ci.Cluster.Api.{Reply, found, not_found, failed, Client, Builder, BuilderError}
use nvidia_ci.Cluster.Crd.{checked}
use nvidia_ci.Wait.Poll.{Step, go_on, done, stop, Ended, reached, timed_out, stopped, poll}
use nvidia_ci.Cluster.Olm.Defs.{
  OlmKind, new_olm_builder, checked_olm, olm_exists, olm_pull, olm_create, olm_delete, OlmOutcome,
}

abbrev pub catalog_source_kind : OlmKind
catalog_source_kind = record {
  kind = record { name = codes "CatalogSource"; crd_name = codes "catalogsource" };
  name_error = codes "catalogsource 'name' cannot be empty";
  nsname_error = codes "catalogsource 'nsname' cannot be empty";
}

-- NewCatalogSourceBuilder with a client
abbrev pub new_catalog_source : {P : Type 0} → P → Text → Text → Builder P
new_catalog_source no_spec name nsname = new_olm_builder catalog_source_kind name nsname no_spec []

-- NewCatalogSourceBuilderWithIndexImage with a client and its specification
abbrev pub new_catalog_source_with_index_image :
    {P : Type 0} → P → Text → Text → Text → Text → Builder P
new_catalog_source_with_index_image spec name nsname display_name publisher =
    new_olm_builder catalog_source_kind name nsname spec (
      if is_empty publisher
      then codes "catalogsource 'publisher' cannot be empty"
      else if is_empty display_name
      then codes "catalogsource 'display' cannot be empty"
      else [])

-- The condition of IsReady on the answer to Get; the parameter is LastObservedState, if there is one.
abbrev pub until_ready : {P : Type 0} → (P → Option Text) → Reply P → Step Text
until_ready state (found o) = elim (state o.payload) [
  | none ↦ go_on
  | some s ↦ if text_eq s (codes "READY") then done else go_on
]
until_ready state (not_found o) = stop (codes "not found")
until_ready state (failed o e) = stop e

-- validate
abbrev pub checked_catalog_source : {P : Type 0} → Builder P → Builder P
checked_catalog_source = checked_olm catalog_source_kind

module _ {P : Type 0} (c : Client P) where
  abbrev pub catalog_source_exists : Builder P → c.World → Bool × Builder P
  catalog_source_exists = olm_exists catalog_source_kind c

  abbrev pub pull_catalog_source : P → Text → Text → c.World → Result BuilderError (Builder P)
  pull_catalog_source = olm_pull catalog_source_kind c

  abbrev pub create_catalog_source : Builder P → c.World → OlmOutcome catalog_source_kind c
  create_catalog_source = olm_create catalog_source_kind c

  abbrev pub delete_catalog_source : Builder P → c.World → OlmOutcome catalog_source_kind c
  delete_catalog_source = olm_delete catalog_source_kind c

  abbrev pub is_reached : Ended Text → Bool
  is_reached reached = true
  is_reached timed_out = false
  is_reached (stopped e) = false

  -- IsReady; the polls are the answers to Get behind Exists.
  unfoldable pub catalog_source_is_ready :
      (P → Option Text) → Builder P → c.World → List (Reply P) → Bool
  unfolding olm_exists checked
  catalog_source_is_ready state b w polls =
      if (catalog_source_exists (checked_catalog_source b) w).0
      then is_reached (poll (until_ready state) polls)
      else false
