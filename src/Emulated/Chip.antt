-- ===== src/Emulated/Chip.antt =====
-- kickcat::EmulatedESC of lib/slave/src/ESC/EmulatedESC.cc: the memory of the chip and the accesses
-- to it. An address that nothing has been written to holds what `memory` says.
mod Registers
mod Tests
pub mod Fmmu
pub mod Commands
pub mod Logic
pub mod Mailbox
pub use Registers.*
