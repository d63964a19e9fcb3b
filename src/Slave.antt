-- ===== src/Slave.antt =====
-- The slave stack: the registers of its ESC that the code uses, the process data, the mailbox's
-- sync managers, and the EtherCAT state machine over them.
pub mod Esc
pub mod Pdo
pub mod Mbx
pub mod Esm
