-- ===== src/Text/Number.antt =====
-- strconv.Atoi on a 64-bit machine, and the integers' order.
mod Bounds
pub mod Order
mod Defs
pub use Bounds.*
unfoldable pub use Defs.*
