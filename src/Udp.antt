-- ===== src/Udp.antt =====
-- udp_assoc.go, and the slots of socks5UDPConnector in socks5.go.
pub mod Association
pub mod Slots
