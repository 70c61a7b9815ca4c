-- ===== src/Util.antt =====
-- pkg/util/util.go: sizes, the try lock, the names of NVMe devices, and the volume context that is
-- kept in a file.
pub mod Size
pub mod TryLock
pub mod Device
pub mod Context
pub mod Config
