-- ===== src/Socks.antt =====
-- socks5.go: the SOCKS5 client. Addresses on the wire, method negotiation, the request, the UDP
-- datagram header and the CONNECT connector.
pub mod Wire
pub mod Session
pub mod Address
pub mod Datagram
pub mod Handshake
pub mod Connect
pub mod Associate
pub mod Dial
