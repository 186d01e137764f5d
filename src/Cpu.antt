-- ===== src/Cpu.antt =====
-- The processor's tables and the interrupt controllers, kernel/arch/x86_64.
pub mod Gdt
pub mod Pic
pub mod Idt
pub mod Processor
