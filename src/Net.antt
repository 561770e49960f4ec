-- ===== src/Net.antt =====
-- What wirez uses of Go's packages strconv and net: numbers in text, host:port, IP addresses and
-- networks.
pub mod Decimal
pub mod HostPort
pub mod Ip
pub mod IpText
pub mod Plain
