-- ===== src/Bench.antt =====
-- The measurement harness of bench/.
pub mod Phase3
pub mod Tokens
pub mod Capture
pub mod AcousticStop
pub mod Probe
pub mod Frames
