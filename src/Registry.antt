-- ===== src/Registry.antt =====
-- The container registry clients of pkg/nvidianetwork/stagingregistry.go and
-- pkg/nvidiagpu/precompiled.go: one flow over a site, and the two sites.
pub mod Tests
pub mod Site
pub mod Header
pub mod Client
pub mod Tags
pub mod Confined
pub mod Pages
