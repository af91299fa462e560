-- ===== src/Disk.antt =====
-- kernel/diskmanager: partitions and volumes.
pub mod Mbr
pub mod Volume
pub mod Drives
pub mod Ide
pub mod Setup
mod Tests
