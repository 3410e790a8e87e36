-- ===== src/Ofed/Explicit.antt =====
-- pkg/nvidianetwork/explicitofed.go: a requested image, and its checks against the registry.
pub mod RoundTrip
pub mod Workers
mod Defs
unfoldable pub use Defs.*
