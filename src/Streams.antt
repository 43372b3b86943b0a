-- ===== src/Streams.antt =====
-- The streams that the assembler fills, of capturer/MutiCoroutineAccessReader.go, and what reads them.
pub mod Reader
pub mod Concurrent
mod Tests
