-- ===== src/Cluster/ConfigMap.antt =====
-- pkg/configmap/configmap.go.
pub mod Behaviour
pub mod Waiting
mod Defs
unfoldable pub use Defs.*
