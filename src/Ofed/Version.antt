-- ===== src/Ofed/Version.antt =====
-- compareDottedVersion of pkg/nvidianetwork/precompiledofed.go.
mod Order
mod Latest
mod Defs
pub use Order.*
pub use Latest.*
unfoldable pub use Defs.*
