-- ===== src/Datanode.antt =====
-- The datanode's own parts beside its storage engine: src/datanode/comm/, src/datanode/service/ and
-- src/datanode/main.cc.
pub mod Config
pub mod Device
pub mod Manager
