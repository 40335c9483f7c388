-- ===== src/Mm.antt =====
-- mm/: virtual memory and the kernel heap.
pub mod Flags
pub mod VirtAddr
pub mod Vmm
pub mod Ranges
pub mod Slab
