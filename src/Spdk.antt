-- ===== src/Spdk.antt =====
-- util/nvmf.go: `nodeNVMf`, an SPDK storage node that exports its volumes over NVMe-oF.
pub mod Node
pub mod Publishing
pub mod Laws
pub mod Target
pub mod Volumes
pub mod Deletion
pub mod Interface
pub mod Info
