-- ===== src/Assembly.antt =====
-- capturer/extendedassembly.go: TCP reassembly.
pub mod Sequence
pub mod Page
pub mod PageCache
pub mod Connection
pub mod Pool
pub mod Segment
pub mod Work
pub mod Assembler
mod Tests
pub mod Content
pub mod Steady
