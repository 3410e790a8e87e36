-- ===== src/Cluster/Gone.antt =====
-- The polls of a wait for a deletion, shared by the builders.
use nvidia_ci.Common.{◌≡◌, List, ◌∷◌, ◌++◌, Option, map}
use nvidia_ci.Cluster.Api.{Object, Reply, found, not_found}

-- The object is found by each poll up to one that does not find it.
pub record IsGone {P : Type 0} (polls : List (Reply P)) : Type 0 where
  pub present : List (Object P)
  pub beside : Option (Object P)
  pub later : List (Reply P)
  pub in_order : polls ≡ map found present ++ not_found beside ∷ later
