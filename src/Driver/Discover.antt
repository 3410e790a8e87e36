-- ===== src/Driver/Discover.antt =====
-- DiscoverPrecompiledDriverVersion of pkg/nvidiagpu/precompiled.go.
pub mod Versions
mod Defs
unfoldable pub use Defs.*
