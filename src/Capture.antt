-- ===== src/Capture.antt =====
-- The actors of capturer/actor.go that open captures of packets and start and stop them.
pub mod Actor
pub mod Manager
pub mod Program
pub mod Launch
pub mod Loop
mod Tests
