-- ===== src/Decoder.antt =====
-- The protocol decoders of the package decoder.
pub mod Http
pub mod Wrapper
pub mod Registry
pub mod Default
mod Tests
