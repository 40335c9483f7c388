-- ===== src/Fs.antt =====
-- fs/: the virtual file system, ext2 and the disk under it.
pub mod Vfs
pub mod Device
pub mod Ext2
pub mod Partitions
