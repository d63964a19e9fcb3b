-- ===== src/CoE.antt =====
-- CANopen over EtherCAT: the SDO messages that the master's requests (lib/src/CoE/mailbox/request.cc)
-- and the slave's server (lib/src/CoE/mailbox/response.cc) exchange.
pub mod Message
pub mod Segment
pub mod Dictionary
pub mod Client
pub mod Server
pub mod Information
pub mod Transfer
mod Tests
