-- ===== src/Arch.antt =====
-- arch/x86_64/: physical memory, and the tables and registers of the processor and its buses.
pub mod PhysAddr
pub mod Pmm
pub mod Interrupts
pub mod Pci
pub mod Memory
pub mod Gdt
pub mod Cpu
pub mod Acpi
pub mod Apic
