-- ===== src/Examples.antt =====
-- Runs of the code at concrete inputs, and instances of the theorems.
mod Words
mod Pages
mod Paging
mod Heap
mod Tables
mod Devices
mod Disk
mod Locks
mod Sectors
mod Ports
mod Processor
mod Volumes
mod Spaces
mod Handlers
mod Screens
mod Slots
