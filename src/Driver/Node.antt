-- ===== src/Driver/Node.antt =====
-- driver/nodeserver.go and util/validate.go: the node service.
pub mod MountPoint
pub mod Stage
pub mod Publish
pub mod Laws
pub mod Table
pub mod Attempts
