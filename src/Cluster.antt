-- ===== src/Cluster.antt =====
-- The builders of the repository's packages over a client of the cluster's API.
mod Tests
pub mod Api
pub mod Gone
pub mod ConfigMap
pub mod Crd
pub mod NicPolicy
pub mod IpoibNetwork
pub mod MacvlanNetwork
pub mod Alm
pub mod ClusterPolicy
pub mod Finalized
pub mod NvidiaDriver
pub mod GpuCluster
pub mod Csv
pub mod Deployment
pub mod Olm
pub mod Namespace
pub mod Node
