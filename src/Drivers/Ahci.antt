-- ===== src/Drivers/Ahci.antt =====
-- drivers/ahci.rs: the SATA controller. Command: the structs of a command in memory; Port: the
-- registers of a port, and a command from its slot to its result; Transfer: reads and writes of bytes,
-- over commands that move whole sectors.
pub mod Command
pub mod Port
pub mod Transfer
pub mod Setup
