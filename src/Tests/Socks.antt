-- ===== src/Tests/Socks.antt =====
-- The SOCKS5 client at concrete exchanges.
use wirez.Conn.{Conn, fresh, write, read_full}
use wirez.Net.Decimal.{itoa, digits_value}
use wirez.Net.Ip.{v4_in_v6, to4}
use wirez.Net.HostPort.Laws.{IsHost, IsPort}
use wirez.Net.HostPort.{join_host_port, host_port, split_host_port, parse_port}
use wirez.Net.Plain.{plain, read_ip, write_ip}
use wirez.Net.Plain.Laws.{plain-IpTextLaws}
use wirez.Prelude.{
  inl, inr, ap, get_or, equal, if◌then◌else◌, ◌≡◌, refl, last_index, none, some, [], ◌∷◌, ◌++◌,
  Bytes, bytes, drop, arith,
}
use wirez.Socks.Address.{ip4}
use wirez.Socks.Associate.{associate}
use wirez.Socks.Associate.Relay.{zeros, RelayHost, at_proxy, as_named}
use wirez.Socks.Associate.Laws.{
  associate_request, IsSettled, associate-IsSettled, associate-accepts,
}
use wirez.Socks.Connect.{answer_of, connect-accepts, connect-Settled, Settled}
use wirez.Socks.Datagram.{parse_udp_datagram-udp_datagram}
use wirez.Socks.Handshake.{Negotiates, by_pass, handshake_ok}
use wirez.Socks.Session.{
  Userinfo, ProxyAddr, Scheme, Connector, greeting, auth_request, handshake, connect,
}
use wirez.Socks.Wire.{append_addr, read_addr, udp_datagram, parse_udp_datagram}
use wirez.Throw.{eof, failure, value, ok}

abbrev user : Userinfo
user = record { username = bytes "me"; password = some (bytes "pw") }

abbrev proxy : ProxyAddr
proxy = record { scheme = Scheme.socks5; address = bytes "127.0.0.1:1080"; auth = some user }

-- The proxy asks for the password, accepts it, and the destination's banner follows its reply.
abbrev reply : Bytes
reply = 5 ∷ 2 ∷ 1 ∷ 0 ∷ []

abbrev banner : Bytes
banner = bytes "SSH-2.0"

abbrev dialed : Conn
dialed = record (fresh []) { incoming = answer_of reply 0 (ip4 (0 ∷ 0 ∷ 0 ∷ 0 ∷ [])) 0 banner }

abbrev tcp : Connector
tcp network address = value dialed

abbrev connect_bytes : Bytes
connect_bytes = 5 ∷ 1 ∷ 0 ∷ 1 ∷ 10 ∷ 0 ∷ 0 ∷ 1 ∷ 0 ∷ 22 ∷ []

connect-accepts_example : connect plain tcp (some 10) proxy (bytes "10.0.0.1:22") ≡ (
  ok tt,
  some (record (fresh []) {
    incoming = banner;
    sent = (greeting (some user) ++ auth_request (bytes "me") (bytes "pw")) ++ connect_bytes;
  }),
)
unfolding host_port append_addr read_ip split_host_port last_index parse_port digits_value to4
connect-accepts_example =
    connect-accepts plain (fresh []) refl refl tcp (some 10) proxy (bytes "10.0.0.1:22")
      (bytes "10.0.0.1") 0 22 0 connect_bytes reply (auth_request (bytes "me") (bytes "pw")) banner
      (ip4 (0 ∷ 0 ∷ 0 ∷ 0 ∷ [])) refl refl (by_pass user 1 refl (omega arith) refl refl) refl refl
      (omega arith)

connect-Settled_example : Settled (connect plain tcp none proxy (bytes "10.0.0.1:22"))
connect-Settled_example = connect-Settled plain tcp none proxy (bytes "10.0.0.1:22")

-- The proxy chooses no authentication.
abbrev open_proxy : Conn
open_proxy = fresh (5 ∷ 0 ∷ 7 ∷ [])

abbrev greeted : Conn
greeted = record open_proxy { incoming = 7 ∷ []; sent = greeting none }

handshake_runs : handshake none open_proxy ≡ (ok tt, greeted)
unfolding handshake write read_full
handshake_runs = refl

handshake_ok_example :
    (answer extra : Bytes) × Negotiates none answer extra
    × (open_proxy.incoming ≡ answer ++ greeted.incoming)
    × (greeted ≡ record open_proxy {
      incoming = greeted.incoming;
      sent = (open_proxy.sent ++ greeting none) ++ extra;
    })
handshake_ok_example = handshake_ok none open_proxy greeted handshake_runs

abbrev datagram : Bytes
datagram = 0 ∷ 0 ∷ 0 ∷ 1 ∷ 1 ∷ 1 ∷ 1 ∷ 1 ∷ 0 ∷ 53 ∷ 7 ∷ 8 ∷ []

parse_udp_datagram-udp_datagram_example :
    parse_udp_datagram plain datagram ≡ ok (write_ip (read_ip (bytes "1.1.1.1")), 53, 7 ∷ 8 ∷ [])
unfolding udp_datagram append_addr digits_value to4
parse_udp_datagram-udp_datagram_example =
    parse_udp_datagram-udp_datagram plain plain-IpTextLaws (bytes "1.1.1.1") (7 ∷ 8 ∷ []) datagram
      53 (omega arith) (unfold read_ip in refl)

parse_udp_datagram_runs : parse_udp_datagram plain datagram ≡ ok (bytes "1.1.1.1", 53, 7 ∷ 8 ∷ [])
unfolding parse_udp_datagram read_addr write_ip read_full
parse_udp_datagram_runs = refl

read_addr_runs :
    read_addr plain (fresh (drop 3 datagram)) ≡ (ok (bytes "1.1.1.1", 53), fresh (7 ∷ 8 ∷ []))
unfolding read_addr write_ip read_full
read_addr_runs = refl

-- A proxy that names the unspecified address as its relay's.
abbrev control : Conn
control = record (fresh []) { incoming = answer_of reply 0 (ip4 (0 ∷ 0 ∷ 0 ∷ 0 ∷ [])) 4000 [] }

abbrev control_tcp : Connector
control_tcp network address = value control

abbrev relay_udp : Connector
relay_udp network address =
    if equal address (bytes "127.0.0.1:4000") then value (fresh []) else failure eof

zero_is : read_ip (bytes "0.0.0.0") ≡ v4_in_v6 ++ zeros 4
unfolding read_ip digits_value
zero_is = refl

proxy_is : bytes "127.0.0.1:1080" ≡ join_host_port (bytes "127.0.0.1") (bytes "1080")
unfolding join_host_port
proxy_is = refl

loopback-IsHost : IsHost (bytes "127.0.0.1")
loopback-IsHost = record { no_open = refl; no_close = refl }

proxy-IsPort : IsPort (bytes "1080")
proxy-IsPort = record { no_colon = refl; no_open = refl; no_close = refl }

relay_is : RelayHost plain (bytes "127.0.0.1") (bytes "0.0.0.0") (bytes "127.0.0.1")
unfolding read_ip digits_value
relay_is = at_proxy (inr refl)

-- And one that names a host of its own.
named_relay_is : RelayHost plain (bytes "127.0.0.1") (bytes "10.0.0.7") (bytes "10.0.0.7")
unfolding read_ip digits_value
named_relay_is = as_named (λ a. elim a [
  | inl e ↦ absurd (omega (arith, ap (λ ip. get_or ip 10 0) e))
  | inr e ↦ absurd (omega (arith, ap (λ ip. get_or ip 12 0) e))
])

relay_found :
    relay_udp (bytes "udp") (join_host_port (bytes "127.0.0.1") (itoa 4000)) ≡ value (fresh [])
unfolding join_host_port equal itoa
relay_found = refl

associate-accepts_example : associate plain control_tcp relay_udp (some 10) proxy ≡ (
  ok tt,
  some (record (fresh []) {
    sent = (greeting (some user) ++ auth_request (bytes "me") (bytes "pw")) ++ associate_request;
  }),
  some (fresh []),
)
unfolding write_ip equal
associate-accepts_example =
    associate-accepts plain plain-IpTextLaws control_tcp relay_udp (some 10) proxy (fresh [])
      (fresh []) 0 4000 reply (auth_request (bytes "me") (bytes "pw")) [] (bytes "127.0.0.1")
      (bytes "1080") (bytes "127.0.0.1") (ip4 (0 ∷ 0 ∷ 0 ∷ 0 ∷ [])) refl refl refl
      (by_pass user 1 refl (omega arith) refl refl) zero_is refl (omega arith) proxy_is
      loopback-IsHost proxy-IsPort relay_is relay_found

associate-IsSettled_example : IsSettled (associate plain control_tcp tcp none proxy)
associate-IsSettled_example = associate-IsSettled plain control_tcp tcp none proxy
