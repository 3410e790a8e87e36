-- ===== src/Mig.antt =====
-- pkg/mig: the parameters, the profiles and the checks of the MIG and time-slicing workloads.
mod Tests
pub mod Params
pub mod Slices
pub mod Profiles
pub mod Pids
pub mod Nodes
pub mod TimeSlicing
