-- ===== src/Fs/Ext2.antt =====
-- fs/ext2.rs: the ext2 file system. Layout: the structs on the disk; Volume: where they lie; Alloc:
-- free blocks and inodes; Pointers: the block of an index of a file; Files: reading and writing;
-- Directory and Paths: names. The file system that `EXT2_FS` holds is an argument, and the disk a
-- parameter. `unwrap` of a failed disk access panics. The pages of temporary buffers, which each
-- operation takes and gives back, are not modelled here.
pub mod Layout
pub mod Volume
pub mod Alloc
pub mod Pointers
pub mod Files
pub mod Directory
pub mod Paths
