-- ===== src/Cluster/Namespace.antt =====
-- pkg/namespace/namespace.go: the namespace builder, whose objects have no namespace.
pub mod Cleaned
mod Tests
mod Defs
unfoldable pub use Defs.*
