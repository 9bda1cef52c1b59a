-- ===== src/Tests.antt =====
-- Concrete runs of the modelled code.
pub mod Parts
pub mod Stream
pub mod Call
pub mod Harness
pub mod Response
pub mod Server
pub mod Stop
pub mod Speech
pub mod Tools
pub mod Probe
