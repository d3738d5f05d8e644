-- ===== src/Memory.antt =====
-- src/utils/pmm.c and src/utils/malloc.c: the page bitmap and the kernel heap on top of it.
pub mod Pmm
pub mod Heap
