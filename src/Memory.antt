-- ===== src/Memory.antt =====
-- src/kernel/mm/memory.c: the page allocator, the kernel heap and the page tables.
pub mod Pages
pub mod Heap
pub mod Tables
