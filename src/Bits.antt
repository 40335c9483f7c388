-- ===== src/Bits.antt =====
-- Facts about the bit operations at variables, used for the bitmaps, the page-table entries and the
-- device registers.
pub mod Step
pub mod Digits
pub mod Masks
pub mod Tables
