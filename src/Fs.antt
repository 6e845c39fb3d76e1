-- ===== src/Fs.antt =====
-- kernel/fs.c and kernel/fs.h: the file system on the disk image.
pub mod Layout
pub mod State
pub mod Alloc
pub mod Cache
pub mod Open
pub mod Transfer
pub mod Files
pub mod Tests
