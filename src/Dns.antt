-- ===== src/Dns.antt =====
-- resolver.go: the local DNS resolver. The upstream list with failover, messages on a TCP stream,
-- the AAAA policy, and the query handler.
pub mod Upstreams
pub mod Stream
pub mod Server
pub mod Policy
pub mod Serve
