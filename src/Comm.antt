-- ===== src/Comm.antt =====
-- src/comm: what every part of the program shares.
pub mod ErrorCode
pub mod Text
pub mod Crc
