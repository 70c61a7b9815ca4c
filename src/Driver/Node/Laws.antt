-- ===== src/Driver/Node/Laws.antt =====
-- driver/nodeserver.go: what the node service has done to the machine when it returns.
pub mod Mounts
pub mod Staging
pub mod Publishing
pub mod Commands
