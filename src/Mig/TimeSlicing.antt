-- ===== src/Mig/TimeSlicing.antt =====
-- pkg/mig/mig.go: the device-plugin configuration of the time-slicing tests, over a store of the
-- objects that it writes.
mod Tests
mod Store
mod Defs
mod Flow
mod Policy
mod Frame
mod Captured
mod Configured
pub mod Restored
unfoldable pub use Store.*
unfoldable pub use Defs.*
unfoldable pub use Flow.*
