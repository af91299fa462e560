-- ===== src/Memory.antt =====
-- kernel/memory_manager and the paging code of kernel/arch/x86_64.
pub mod Pmm
pub mod Vmm
pub mod Kmalloc
mod Tests
