-- ===== src/Cluster/Finalized.antt =====
-- The common form of pkg/nvidiagpu/nvidiadriver.go and gpucluster.go: custom resources whose deletion
-- waits for finalizers.
pub mod Gone
mod Tests
mod Defs
unfoldable pub use Defs.*
