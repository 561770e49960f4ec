-- ===== src/Tests/Chain.antt =====
-- A chain of two hops, an HTTP proxy behind a SOCKS5 proxy, and the same with a name in it.
use wirez.Chain.{Dialer, tcp_chain}
use wirez.Chain.Accepts.{Talk, by_socks5, by_http, Talks, done, hop, tcp_chain-accepts}
use wirez.Chain.Names.{tcp_chain-name}
use wirez.Conn.{fresh}
use wirez.Http.Tunnel.{request_text}
use wirez.Http.Tunnel.Laws.{IsStatus, answer}
use wirez.Net.HostPort.{host_port}
use wirez.Net.Plain.{plain}
use wirez.Prelude.{
  ℕ, ◌≡◌, ◌≢◌, refl, Bool, true, none, some, List, [], ◌∷◌, ◌++◌, All, Bytes, bytes, arith,
}
use wirez.Socks.Address.{ip4}
use wirez.Socks.Connect.{answer_of}
use wirez.Socks.Handshake.{no_auth}
use wirez.Socks.Session.{Scheme, ProxyAddr, greeting}
use wirez.Socks.Wire.{append_addr}
use wirez.Throw.{value, ok}

abbrev first_hop : ProxyAddr
first_hop = record { scheme = Scheme.socks5; address = bytes "10.0.0.1:1080"; auth = none }

abbrev second_hop : ProxyAddr
second_hop = record { scheme = Scheme.http; address = bytes "10.0.0.2:3128"; auth = none }

abbrev named_hop : ProxyAddr
named_hop = record { scheme = Scheme.http; address = bytes "b:3128"; auth = none }

abbrev two : Bytes → ℕ
two rest = 2

abbrev any : Bytes → Bool
any line = true

abbrev banner : Bytes
banner = bytes "SSH-2.0"

-- What the HTTP proxy answers, and what arrives in front of it from the SOCKS5 proxy.
abbrev http_answer : Bytes
http_answer = answer (bytes "1.1") (bytes "200") (bytes "OK") [] banner

abbrev all_bytes : Bytes
all_bytes = answer_of (5 ∷ 0 ∷ []) 0 (ip4 (0 ∷ 0 ∷ 0 ∷ 0 ∷ [])) 0 http_answer

abbrev socks_request : Bytes
socks_request = 5 ∷ 1 ∷ 0 ∷ 1 ∷ 10 ∷ 0 ∷ 0 ∷ 2 ∷ 12 ∷ 56 ∷ []

abbrev all_sent : Bytes
all_sent = ((greeting none ++ []) ++ socks_request) ++ (request_text none (bytes "a:22") ++ [])

abbrev direct : Dialer
direct deadline network address = ok (value (fresh all_bytes))

ok-IsStatus : IsStatus (bytes "1.1") (bytes "200") (bytes "OK")
ok-IsStatus = record { version_word = refl; code_word = refl; one_line = refl }

first-Talk :
    Talk plain two any first_hop second_hop.address all_bytes
      ((greeting none ++ []) ++ socks_request)
      http_answer
unfolding host_port wirez.Net.HostPort.split_host_port wirez.Prelude.last_index
    wirez.Net.HostPort.parse_port wirez.Net.Decimal.parse_uint wirez.Net.Decimal.digits_value
    append_addr wirez.Net.Plain.read_ip wirez.Net.Ip.to4
first-Talk =
    by_socks5 (bytes "10.0.0.2") socks_request (5 ∷ 0 ∷ []) [] 0 3128 0 (ip4 (0 ∷ 0 ∷ 0 ∷ 0 ∷ []))
      refl refl (no_auth refl refl) refl refl (omega arith) refl refl

second-Talk :
    Talk plain two any second_hop
      (bytes "a:22")
      http_answer
      (request_text none (bytes "a:22"))
      banner
second-Talk = by_http (bytes "1.1") (bytes "OK") [] refl ok-IsStatus tt refl refl

hops-Talks :
    Talks plain two any (bytes "a:22") (first_hop ∷ second_hop ∷ []) all_bytes all_sent banner
hops-Talks = hop first-Talk (hop second-Talk done refl) refl

tcp_chain-accepts_example :
    tcp_chain plain two any direct
      (first_hop ∷ second_hop ∷ [])
      (some 9)
      (bytes "tcp")
      (bytes "a:22")
    ≡ ok (value (record (fresh []) { incoming = banner; sent = all_sent }))
tcp_chain-accepts_example =
    tcp_chain-accepts plain two any (bytes "a:22") direct (first_hop ∷ second_hop ∷ []) (some 9)
      (fresh []) all_bytes all_sent banner refl refl refl refl hops-Talks

-- `-F socks5://10.0.0.1:1080 -F http://b:3128`.
tcp_chain-name_example :
    tcp_chain plain two any direct
      (first_hop ∷ named_hop ∷ [])
      none
      (bytes "tcp")
      (bytes "10.0.0.9:22")
    ≢ ok (value (fresh []))
unfolding host_port wirez.Net.HostPort.split_host_port wirez.Prelude.last_index
    wirez.Net.HostPort.parse_port wirez.Net.Decimal.parse_uint wirez.Net.Decimal.digits_value
    wirez.Net.Plain.read_ip
tcp_chain-name_example =
    tcp_chain-name plain two any direct [] [] first_hop named_hop (bytes "b") (bytes "10.0.0.9:22")
      3128 none (fresh []) refl refl refl
