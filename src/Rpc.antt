-- ===== src/Rpc.antt =====
-- src/rpc and src/pkg/rpc_caller: strings on the wire, the servers' handlers, the callers.
pub mod Serializer
pub mod Method
pub mod Message
pub mod Server
pub mod Caller
