-- ===== src/Mig/Slices.antt =====
-- parseMigInstances, ReadMIGParameter and ReadTimeSlicingParameters of pkg/mig/mig.go.
pub mod Limits
mod Defs
unfoldable pub use Defs.*
