-- ===== src/Ofed.antt =====
-- pkg/nvidianetwork: choice of a precompiled DOCA/OFED driver image.
mod Tests
pub mod Version
pub mod Image
pub mod Select
pub mod Explicit
pub mod NodeOs
pub mod DriverPods
pub mod Staging
pub mod Catalog
pub mod PullSecret
