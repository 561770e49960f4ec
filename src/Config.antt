-- ===== src/Config.antt =====
-- config.go, and what run.go and resolver.go make of the flags.
pub mod Mapping
pub mod Options
pub mod Proxies
