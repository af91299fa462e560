-- ===== src/Cpu.antt =====
-- kernel/arch/x86_64: the processor's descriptor tables.
pub mod Gdt
pub mod Idt
pub mod Interrupt
pub mod Tables
mod Tests
