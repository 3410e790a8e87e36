-- ===== src/Text.antt =====
-- Go's `strings` and `strconv` functions as the repository uses them, over the bytes of a text.
-- Where Go consults Unicode tables (`TrimSpace`, `EqualFold`), the texts are ASCII.
pub mod Search
pub mod Trim
pub mod Split
pub mod Number
pub mod Labels
mod Defs
unfoldable pub use Defs.*
