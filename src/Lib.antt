-- ===== src/Lib.antt =====
-- RevinixOS: a verification library for the kernel.
--
-- The program is a 64-bit kernel in C. At boot it reads the memory map, sets up a frame allocator
-- (kernel/mm/pmm.c), page tables (kernel/mm/vmm.c) and a heap (kernel/mm/heap.c), installs
-- descriptor tables, interrupts and drivers, mounts a FAT32 volume (kernel/fs) and runs tasks
-- (kernel/sched) that reach the kernel by system calls (kernel/syscall). The page tables take their
-- frames from the allocator, the heap maps its pages through the page tables, the scheduler takes
-- stacks from the heap and address spaces from the page tables, and system calls check user
-- pointers by a walk over the page tables.
--
-- Files:
--   Base          shared names, C arithmetic, bits, lists and tests
--   Mm/Pmm        kernel/mm/pmm.c: `Pmm` is its statics and physical memory, one function to each
--                 function of the file; Init is pmm_init
--   Mm/Frames     what paging asks of a frame allocator, an interface that Mm/Pmm/Frames fills
--   Mm/Vmm        kernel/mm/vmm.c over that interface: `Vmm` is its statics, the tables and CR3; Space
--                 builds the kernel's tables and takes a process's apart; User is about the user half of
--                 an address space
--   Mm/Heap       kernel/mm/heap.c: `Heap` is its statics and the headers at their addresses
--   Sched         kernel/sched/sched.c: `Sched` is its statics, the tasks, the stacks, RSP0 and CR3;
--                 the heap and the address spaces are the interface `Kernel`
--   Fs/Block      kernel/drivers/block.h and kernel/drivers/ramdisk.c
--   Fs/Fat        kernel/fs/fat32.c
--   Fs/Vfs        kernel/fs/vfs.c
--   Input         kernel/drivers/keyboard.c and kernel/drivers/mouse.c
--   Console       kernel/kprintf.c (the log, and Format, the format loop) and kernel/drivers/vga.c (the text screen)
--   Clock         kernel/drivers/rtc.c, over the sequence of what the chip's registers hold
--   Boot          kernel/bootinfo.c
--   Ports         kernel/arch/x86_64/io.h: the bus behind the ports, a parameter of the drivers
--   Ata           kernel/drivers/ata.c over a bus; Drive states what it relies on of a disk
--   Gfx           kernel/gfx/gfx.c: the two buffers and what is drawn in them; Gfx/Fbcon is
--                 kernel/gfx/fbcon.c, the text console on them
--   Elf           kernel/user/elf.c over the interface `Paging`, which Process fills with Mm/Vmm
--   Shell         kernel/shell.c: the command line and the files and texts of its commands
--   Desktop       kernel/gui/desktop.c over Gfx
--   Serial        kernel/drivers/serial.c over a bus
--   Startup       kernel/main.c: the root device, and how a process is put together
--   Cpu           kernel/arch/x86_64/gdt.c, idt.c, pic.c and irq.c: descriptor tables and interrupts
--   Syscall       kernel/mm/uaccess.c and kernel/syscall/syscall.c
-- The functions keep the names of the code, less the prefix of their file. A C function that changes
-- state becomes a function from the state to the state, with its result in front; -1 and NULL become
-- `none` where no state goes with them. Machine integers are natural numbers with the wrap written
-- out; the signed coordinates of the graphics and the mouse are integers that do not overflow. Tests
-- stands beside the modules of each part, with runs at concrete states.
--
-- Loops take the number of rounds that are left where the code counts, and fuel elsewhere. The
-- theorems give the fuel that is enough: three rounds for the placement of the bitmap, one more than
-- the blocks for the heap, one more than the other tasks for the run queue, 4097 for the chunks of
-- SYS_WRITE. The polls of the ATA driver count to ATA_TIMEOUT, and a long read has a round for each
-- sector at most. The loops of FAT32 carry guards of 65 and 1025 rounds, which are their fuel.
--
-- Not modelled: the assembly stubs, the devices behind the ports, the TLB, the messages of the kernel
-- log, isr_handler, which prints and halts, the font's glyphs, the order of the
-- calls of kmain, and of the shell the command run and what meminfo, mouse and ls print. A page table is addressed by its physical
-- address, by the identity map at boot and the HHDM later alike.
mod Base
pub mod Mm
pub mod Sched
pub mod Fs
pub mod Input
pub mod Ports
pub mod Syscall
pub mod Console
pub mod Clock
pub mod Ata
pub mod Boot
pub mod Cpu
pub mod Gfx
pub mod Elf
pub mod Shell
pub mod Serial
pub mod Desktop
pub mod Startup
