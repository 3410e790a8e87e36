-- ===== src/Driver/Dedup.antt =====
-- deduplicateByMajorVersion of pkg/nvidiagpu/precompiled.go.
pub mod Laws
mod Defs
unfoldable pub use Defs.*
