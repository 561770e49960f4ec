-- ===== src/Http.antt =====
-- httpproxy.go: the CONNECT tunnel through an HTTP proxy, and what it uses of bufio, net/textproto
-- and encoding/base64.
pub mod Base64
pub mod Reader
pub mod Tunnel
