-- ===== src/Console.antt =====
-- kernel/kprintf.c and kernel/drivers/vga.c: the kernel log and the text screen.
pub mod Log
pub mod Format
pub mod Vga
pub mod Cursor
mod Tests
