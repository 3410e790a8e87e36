-- ===== src/Text/Search.antt =====
-- strings.Index, strings.Contains, strings.LastIndex and strings.Cut.
mod Laws
mod Defs
pub use Laws.*
unfoldable pub use Defs.*
