-- ===== src/Common.antt =====
-- The package common: filters for packet capture, addresses.
pub mod Filter
pub mod Address
pub mod Goroutine
mod Tests
