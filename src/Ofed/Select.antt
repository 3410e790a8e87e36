-- ===== src/Ofed/Select.antt =====
-- SelectPrecompiledOFED of pkg/nvidianetwork/precompiledofed.go.
pub mod Loop
pub mod Outcome
mod Defs
unfoldable pub use Defs.*
