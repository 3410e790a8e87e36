-- ===== src/Mig/Pids.antt =====
-- GetPidsWithRegex and uniqueInts of pkg/mig/mig.go.
pub mod Unique
pub mod Listed
mod Defs
unfoldable pub use Defs.*
