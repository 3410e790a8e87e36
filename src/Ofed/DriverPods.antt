-- ===== src/Ofed/DriverPods.antt =====
-- VerifyOFEDDriverPods of pkg/nvidianetwork/explicitofed.go.
pub mod Evidence
mod Defs
unfoldable pub use Defs.*
