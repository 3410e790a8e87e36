-- ===== src/Ofed/Staging.antt =====
-- The staging catalog of pkg/nvidianetwork/stagingregistry.go: tags as catalog images.
pub mod Tags
mod Defs
unfoldable pub use Defs.*
