-- ===== src/Assembly/Steady.antt =====
-- The assembler of capturer/extendedassembly.go as a whole: what holds between two calls.
pub mod Slots
pub mod Protocol
pub mod Invariant
pub mod Change
pub mod Moved
pub mod Unlock
pub mod Supply
pub mod Opening
pub mod Packets
pub mod Flushing
pub mod Looping
pub mod Sweeping
pub mod Emptying
pub mod Aging
pub mod Calls
mod Tests
