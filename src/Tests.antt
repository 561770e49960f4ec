-- ===== src/Tests.antt =====
-- Concrete runs of the modelled code, with the theorems applied to them.
pub mod Socks
pub mod Route
pub mod Dns
pub mod Udp
pub mod Config
pub mod Relay
pub mod Http
pub mod Stack
pub mod Container
pub mod Chain
pub mod Wiring
