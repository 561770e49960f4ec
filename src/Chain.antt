-- ===== src/Chain.antt =====
-- The first loop of buildProxyChain in run.go with the connectors it makes, socks5.go and
-- httpproxy.go, put to work: how a connection is dialed through the -F hops.
pub mod Accepts
pub mod Names
use wirez.Conn.{Conn}
use wirez.Http.Reader.{Reader, unread}
use wirez.Http.Tunnel.{http_dial}
use wirez.Config.Options.{is_http}
use wirez.Net.HostPort.{host_port}
use wirez.Net.IpText.{IpText}
use wirez.Prelude.{ℕ, Bool, Option, List, [], ◌∷◌, Bytes, bytes, if◌then◌else◌}
use wirez.Socks.Session.{ProxyAddr, Connector, socks5_dial}
use wirez.Throw.{unsupported, Result, value, failure, Outcome, ok, throw, panic, ◌>>=◌}

-- DialContext of a connector, for the context's deadline, the network and the address.
abbrev pub Dialer : Type 0
Dialer = Option ℕ → Bytes → Bytes → Outcome (Result Conn)

-- An httpTunnel where a net.Conn is asked for: its reads give what its reader holds, and then what
-- its connection gives; its writes and its deadlines are the connection's.
abbrev pub as_conn : Result Reader → Result Conn
as_conn (value r) = value (record r.conn { incoming = unread r })
as_conn (failure e) = failure e

-- A hop that has dialed the proxy, `network` and `address` being the same for every attempt.
abbrev pub dialed_once : Result Conn → Connector
dialed_once r network address = r

-- The connector of a hop that does not dial its proxy.
abbrev pub undialed : Connector
undialed = dialed_once (failure unsupported)

-- A SOCKS5 hop splits the address before it dials: with one that does not split it dials nothing.
abbrev pub when_split {ℓ} : {A : Type ℓ} → Outcome (Bytes × ℕ) → A → A → A
when_split (ok r) x y = x
when_split (throw e) x y = y
when_split (panic f) x y = y

module _ (t : IpText) (ahead : Bytes → ℕ) (field : Bytes → Bool) where
  -- NewSOCKS5Connector(d, p), which dials its proxy by `d`.
  abbrev pub socks5_connector : Dialer → ProxyAddr → Dialer
  socks5_connector d p deadline network address =
      when_split (host_port address)
        (d deadline (bytes "tcp") p.address >>= λ r.
          socks5_dial t (dialed_once r) deadline p address)
        (socks5_dial t undialed deadline p address)

  -- NewHTTPConnector(d, p).
  abbrev pub http_connector : Dialer → ProxyAddr → Dialer
  http_connector d p deadline network address = d deadline (bytes "tcp") p.address >>= λ r.
      http_dial ahead field (dialed_once r) deadline p address >>= λ r. ok (as_conn r)

  -- One round of the loop.
  unfoldable pub add_hop : Dialer → ProxyAddr → Dialer
  add_hop d p = if is_http p.scheme then http_connector d p else socks5_connector d p

  -- tcpConn behind the loop over the hops, where it is `d` in front of it.
  unfoldable pub tcp_chain : Dialer → List ProxyAddr → Dialer
  tcp_chain d [] = d
  tcp_chain d (p ∷ ps) = tcp_chain (add_hop d p) ps
