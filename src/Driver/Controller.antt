-- ===== src/Driver/Controller.antt =====
-- driver/controllerserver.go: the controller service.
pub mod VolumeId
pub mod Create
pub mod Delete
pub mod Publish
pub mod Capabilities
pub mod Session
