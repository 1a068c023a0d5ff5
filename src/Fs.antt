-- ===== src/Fs.antt =====
-- drivers/block.h, drivers/ramdisk.c, fs/fat32.c and fs/vfs.c: files on a block device.
pub mod Block
pub mod Fat
pub mod Vfs
mod Tests
