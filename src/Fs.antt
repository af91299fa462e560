-- ===== src/Fs.antt =====
-- The virtual file system (kernel/vfs) and the RAM file system (kernel/drivers/ramfs).
pub mod Path
pub mod World
pub mod Ramfs
pub mod Vfs
