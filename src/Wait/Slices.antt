-- ===== src/Wait/Slices.antt =====
-- internal/wait/wait.go: the GPU UUIDs that the ResourceSlices of a node publish, and the wait for
-- them.
pub mod Pools
pub mod Counted
pub mod Report
pub mod Match
mod Defs
unfoldable pub use Defs.*
