-- ===== src/Block.antt =====
-- src/datanode/storage/engine/pancake/pancake_block.{h,cc} and the sizes of pancake_comm.h: the
-- blocks that the engine keeps on a device. A block is its fields, and a list of bytes on disk.
pub mod Accepted
pub mod Bytes
pub mod Host
pub mod Step
pub mod Footer
pub mod ExtentHeader
pub mod Journal
pub mod Data
pub mod Super
pub mod Bitmap
