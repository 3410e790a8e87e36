-- ===== src/Ofed/PullSecret.antt =====
-- The scoped pull secret of pkg/nvidianetwork/pullsecret.go and its credentials.
pub mod Tests
pub mod Host
pub mod Scope
pub mod Ensure
pub mod Copied
mod Defs
unfoldable pub use Defs.*
