-- ===== src/Route.antt =====
-- connect.go: where a connection goes. The -L table, the TUN and bypass networks, NAT64, and the
-- connector that chooses between the direct and the proxied way.
pub mod Mapper
pub mod Nat64
pub mod Dial
