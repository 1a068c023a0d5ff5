-- ===== src/Mm.antt =====
-- kernel/mm: physical memory, paging and the kernel heap.
pub mod Pmm
pub mod Frames
pub mod Vmm
pub mod Heap
