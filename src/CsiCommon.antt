-- ===== src/CsiCommon.antt =====
-- pkg/csi-common: the driver object, the endpoint, and the default servers.
pub mod Driver
pub mod Endpoint
pub mod Defaults
pub mod Server
