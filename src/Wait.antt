-- ===== src/Wait.antt =====
-- internal/wait/wait.go and networkwait.go, and the waits of the builders.
pub mod Poll
pub mod Ready
pub mod Nodes
pub mod Slices
mod Tests
pub mod Created
