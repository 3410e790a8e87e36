-- ===== src/Cluster/Node.antt =====
-- pkg/nodes/node.go: the node builder, but for its drains.
pub mod Ready
mod Tests
mod Defs
unfoldable pub use Defs.*
