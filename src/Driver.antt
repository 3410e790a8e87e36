-- ===== src/Driver.antt =====
-- pkg/nvidiagpu/precompiled.go: the precompiled GPU driver versions for a kernel.
mod Tests
pub mod Sort
pub mod Dedup
pub mod Discover
