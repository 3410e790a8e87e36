-- ===== src/Cluster/Crd.antt =====
-- The common form of pkg/nvidianetwork/nicclusterpolicy.go, ipoibnetwork.go, macvlannetwork.go and of
-- pkg/nvidiagpu/clusterpolicy.go.
pub mod Behaviour
pub mod Ready
pub mod Settled
mod Tests
mod Defs
unfoldable pub use Defs.*
