-- ===== src/Drivers.antt =====
-- drivers/: the SATA controller and the timer.
pub mod Ahci
pub mod Hpet
