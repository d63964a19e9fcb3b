-- ===== src/Emulated.antt =====
-- The emulated segment of lib/slave: the wiring between the slaves, and the chip of a slave.
pub mod Network
pub mod Chip
