-- ===== src/Assembly/Content.antt =====
-- The bytes that the assembler of capturer/extendedassembly.go delivers, as a stretch of those sent.
pub mod Stretch
pub mod Contiguous
pub mod Delivered
pub mod Continues
pub mod Ahead
pub mod Handed
pub mod Packets
