-- ===== src/Cluster/Olm.antt =====
-- pkg/olm: the builders of namespaced objects over a typed client.
pub mod Settled
pub mod OperatorGroup
pub mod Subscription
pub mod CatalogSource
pub mod InstallPlan
mod Tests
mod Defs
unfoldable pub use Defs.*
