-- ===== src/Socks/Associate/Laws.antt =====
-- About associate of socks5.go: what it leaves of the two connections, and where the relay is.
use wirez.Conn.{Conn, set_deadline}
use wirez.Conn.Laws.{set_deadline-open}
use wirez.Net.Decimal.{itoa}
use wirez.Net.HostPort.{join_host_port}
use wirez.Net.HostPort.Laws.{IsHost, IsPort}
use wirez.Net.IpText.{IpText, IpTextLaws}
use wirez.Prelude.{
  ℕ, ◌<◌, ◌≡◌, refl, ap, ◌∙◌, true, false, Option, none, some, [], ◌∷◌, ◌++◌, Bytes, bytes,
}
use wirez.Socks.Address.{WireAddr, IsWire, host_of}
use wirez.Socks.Associate.{
  Associated, both_settled, relayed, relay_addr, negotiate, negotiated, controlled, associate,
}
use wirez.Net.Ip.{v4_in_v6, to4}
use wirez.Socks.Associate.Relay.{zeros, RelayHost, relay_addr-RelayHost}
use wirez.Socks.Connect.{answer_of, apply_deadline-open, request-accepts, set_deadline_ok}
use wirez.Socks.Handshake.{Negotiates, handshake-accepts}
use wirez.Socks.Session.{ProxyAddr, Connector, greeting}
use wirez.Socks.Wire.{append_addr}
use wirez.Throw.{Outcome, ok, throw, panic, Result, value, failure}

-- What becomes of the connections: on success both are there, the control connection open and with
-- no deadline; on failure each one that was dialed is closed.
abbrev pub IsSettled : Associated → Type 0
IsSettled (ok x, some control, some relay) = (control.closed ≡ false) × (control.deadline ≡ none)
IsSettled (ok x, _, _) = ⊥
IsSettled (o, none, none) = Unit
IsSettled (o, none, some relay) = ⊥
IsSettled (o, some control, none) = control.closed ≡ true
IsSettled (o, some control, some relay) = (control.closed ≡ true) × (relay.closed ≡ true)

both_settled-IsSettled :
    (relay : Conn) (r : Outcome (Unit {0}) × Conn)
    → ((x : Unit {0}) → r.0 ≡ ok x → (r.1.closed ≡ false) × (r.1.deadline ≡ none))
    → IsSettled (both_settled relay r)
both_settled-IsSettled relay (ok x, c) h = h x refl
both_settled-IsSettled relay (throw e, c) h = (refl, refl)
both_settled-IsSettled relay (panic p, c) h = (refl, refl)

relayed-IsSettled : (control : Conn) (r : Result Conn) → IsSettled (relayed control r)
relayed-IsSettled control (failure e) = refl
relayed-IsSettled control (value relay) =
    both_settled-IsSettled relay (set_deadline none control) (λ x e.
      set_deadline_ok control (set_deadline none control).1
        (ap (λ (o : Outcome (Unit {0})). (o, (set_deadline none control).1)) e))

negotiated-IsSettled :
    (t : IpText) (udp : Connector) (r : Outcome Bytes × Conn) → IsSettled (negotiated t udp r)
negotiated-IsSettled t udp (ok addr, c) = relayed-IsSettled c (udp (bytes "udp") addr)
negotiated-IsSettled t udp (throw e, c) = refl
negotiated-IsSettled t udp (panic p, c) = refl

-- associate never leaks a connection: for all connectors, deadlines and proxies, it succeeds with
-- both connections, the control connection open and with no deadline, or it fails and each
-- connection that was dialed has been closed.
pub associate-IsSettled :
    (t : IpText) (tcp udp : Connector) (deadline : Option ℕ) (proxy : ProxyAddr)
    → IsSettled (associate t tcp udp deadline proxy)
unfolding associate
associate-IsSettled t tcp udp deadline proxy = go (tcp (bytes "tcp") proxy.address)
  where
    go : (r : Result Conn) → IsSettled (controlled t udp deadline proxy r)
    go (value c) = negotiated-IsSettled t udp (negotiate t deadline proxy.auth proxy.address c)
    go (failure e) = tt

-- The request as it is sent: version 5, command 3, and 0.0.0.0:0 as an IPv4 address.
abbrev pub associate_request : Bytes
associate_request = 5 ∷ 3 ∷ 0 ∷ 1 ∷ 0 ∷ 0 ∷ 0 ∷ 0 ∷ 0 ∷ 0 ∷ []

request-bytes :
    (t : IpText)
    → t.parse_ip (bytes "0.0.0.0") ≡ v4_in_v6 ++ zeros 4
    → append_addr t (5 ∷ 3 ∷ 0 ∷ []) (bytes "0.0.0.0") 0 ≡ ok associate_request
unfolding append_addr to4
request-bytes t z = rw z refl

-- An associate with a proxy whose connection is open and takes what is written, and that answers
-- within the protocol, dials the relay at the host and port that the proxy names, or at the proxy's
-- own host and that port if the host named is 0.0.0.0 or ::, and returns that connection beside the
-- control connection, which is open, has no deadline and has sent no more than the greeting, the
-- password if asked, and the ten bytes of a request for 0.0.0.0:0, which net.ParseIP reads as that
-- address.
pub associate-accepts :
    (t : IpText) (laws : IpTextLaws t) (tcp udp : Connector) (deadline : Option ℕ)
    (proxy : ProxyAddr) (c relay : Conn) (rsv bind_port : ℕ)
    (reply extra rest proxy_host proxy_port host : Bytes) (w : WireAddr)
    → c.closed ≡ false
    → c.write_error ≡ none
    → tcp (bytes "tcp") proxy.address
      ≡ value (record c { incoming = answer_of reply rsv w bind_port rest })
    → Negotiates proxy.auth reply extra
    → t.parse_ip (bytes "0.0.0.0") ≡ v4_in_v6 ++ zeros 4
    → IsWire w
    → bind_port < 65536
    → proxy.address ≡ join_host_port proxy_host proxy_port
    → IsHost proxy_host
    → IsPort proxy_port
    → RelayHost t proxy_host (host_of t w) host
    → udp (bytes "udp") (join_host_port host (itoa bind_port)) ≡ value relay
    → associate t tcp udp deadline proxy ≡ (
      ok tt,
      some (record c {
        incoming = rest;
        sent = ((c.sent ++ greeting proxy.auth) ++ extra) ++ associate_request;
        deadline = none;
      }),
      some relay,
    )
unfolding associate negotiate
associate-accepts t laws tcp udp deadline proxy c relay rsv bind_port reply extra rest proxy_host
      proxy_port host w h e d n a v p at is_host is_port r u =
    let dialed : relay_addr t proxy.address (host_of t w, bind_port)
        ≡ ok (join_host_port host (itoa bind_port)) =
      ap (λ x. relay_addr t x (host_of t w, bind_port)) at
      ∙ relay_addr-RelayHost t laws proxy_host proxy_port (host_of t w) host bind_port is_host
          is_port r in
    let answer = answer_of [] rsv w bind_port rest in
    let (s, armed) = apply_deadline-open deadline (record c { incoming = reply ++ answer }) h in
    let timed = record c { deadline = s } in
    let shaken = record timed { sent = (c.sent ++ greeting proxy.auth) ++ extra } in
    let asked = record shaken { incoming = rest; sent = shaken.sent ++ associate_request } in
    rw
      (
        d,
        armed,
        handshake-accepts timed h e reply extra answer n,
        request-accepts t shaken h e 3 rsv 0 bind_port (bytes "0.0.0.0") associate_request rest w
            (request-bytes t a) v p,
        dialed,
        u,
        set_deadline-open none asked h,
      )
      refl
