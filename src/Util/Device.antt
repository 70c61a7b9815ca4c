-- ===== src/Util/Device.antt =====
-- util/util.go: how the block device of an NVMe or virtio controller is found in sysfs.
pub mod Name
pub mod Scan
