-- ===== src/Socks/Connect.antt =====
-- About socks5Request and socks5Connector.connect of socks5.go.
use wirez.Conn.{Conn, Io, set_deadline, apply_deadline, close_on_throw, unwind}
use wirez.Conn.Laws.{read_full_exact, write-open, bind-ok, set_deadline-open}
use wirez.Net.HostPort.{host_port}
use wirez.Net.IpText.{IpText}
use wirez.Prelude.{
  ℕ, ◌<◌, ◌≡◌, ◌≢◌, refl, ap, true, false, Option, none, some, [], ◌∷◌, ◌++◌, arith, Bytes, bytes,
}
use wirez.Socks.Address.{WireAddr, encode, IsWire, host_of, read_addr-encode}
use wirez.Socks.Handshake.{Negotiates, handshake-accepts}
use wirez.Socks.Session.{
  Userinfo, ProxyAddr, Connector, Dialed, over, with_address, greeting, handshake, request, tunnel,
  connect,
}
use wirez.Socks.Wire.{be16, append_addr}
use wirez.Throw.{Outcome, ok, throw, panic, Result, value, failure}

module _ (t : IpText) where
  module _ (c : Conn) (open' : c.closed ≡ false) (writable : c.write_error ≡ none) where
    -- A reply with the version and the code for success is read up to the end of its address.
    pub request-accepts :
        (cmd rsv port bind_port : ℕ) (host req rest : Bytes) (w : WireAddr)
        → append_addr t (5 ∷ cmd ∷ 0 ∷ []) host port ≡ ok req
        → IsWire w
        → bind_port < 65536
        → request t cmd host port
            (record c { incoming = 5 ∷ 0 ∷ rsv ∷ (encode w ++ (be16 bind_port ++ rest)) })
          ≡ (ok (host_of t w, bind_port), record c { incoming = rest; sent = c.sent ++ req })
    unfolding request
    request-accepts cmd rsv port bind_port host req rest w a v p =
        let answer = encode w ++ (be16 bind_port ++ rest) in
        let sent' = record c { sent = c.sent ++ req } in
        rw
          (
            a,
            write-open req (record c { incoming = 5 ∷ 0 ∷ rsv ∷ answer }) open' writable,
            read_full_exact 3 sent' (5 ∷ 0 ∷ rsv ∷ []) answer open' refl,
          )
          (read_addr-encode t sent' open' w bind_port rest v p)

-- All that a proxy may answer to a CONNECT, in front of what the destination sends.
abbrev pub answer_of : Bytes → ℕ → WireAddr → ℕ → Bytes → Bytes
answer_of reply rsv w bind_port rest =
    reply ++ (5 ∷ 0 ∷ rsv ∷ (encode w ++ (be16 bind_port ++ rest)))

pub apply_deadline-open :
    (d : Option ℕ) (c : Conn)
    → c.closed ≡ false
    → (s : Option ℕ) × (apply_deadline d c ≡ (ok tt, record c { deadline = s }))
unfolding apply_deadline
apply_deadline-open none c h = (c.deadline, refl)
apply_deadline-open (some x) c h = (some x, set_deadline-open (some x) c h)

module _ (t : IpText) (c : Conn) (open' : c.closed ≡ false) (writable : c.write_error ≡ none) where
  tunnel-accepts :
      (deadline : Option ℕ) {auth : Option Userinfo} (rsv port bind_port : ℕ)
      (host req reply extra rest : Bytes) (w : WireAddr)
      → Negotiates auth reply extra
      → append_addr t (5 ∷ 1 ∷ 0 ∷ []) host port ≡ ok req
      → IsWire w
      → bind_port < 65536
      → tunnel t deadline auth host port
          (record c { incoming = answer_of reply rsv w bind_port rest })
        ≡ (
          ok tt,
          record c {
            incoming = rest;
            sent = ((c.sent ++ greeting auth) ++ extra) ++ req;
            deadline = none;
          },
        )
  unfolding tunnel
  tunnel-accepts deadline {auth} rsv port bind_port host req reply extra rest w n a v p =
      let answer = 5 ∷ 0 ∷ rsv ∷ (encode w ++ (be16 bind_port ++ rest)) in
      let (s, armed) =
        apply_deadline-open deadline (record c { incoming = reply ++ answer }) open' in
      let timed = record c { deadline = s } in
      let shaken = record timed { sent = (c.sent ++ greeting auth) ++ extra } in
      rw
        (
          armed,
          handshake-accepts timed open' writable reply extra answer n,
          request-accepts t shaken open' writable 1 rsv port bind_port host req rest w a v p,
        )
        (set_deadline-open none (record shaken { incoming = rest; sent = shaken.sent ++ req })
          open')

  -- A CONNECT to a proxy that answers within the protocol succeeds, and the connection it returns
  -- holds, unread, every byte that the destination sent behind the proxy's reply. It is open and has
  -- no deadline, and the proxy was sent the greeting, the password if asked, and the request.
  pub connect-accepts :
      (tcp : Connector) (deadline : Option ℕ) (proxy : ProxyAddr) (address host : Bytes)
      (rsv port bind_port : ℕ) (req reply extra rest : Bytes) (w : WireAddr)
      → host_port address ≡ ok (host, port)
      → tcp (bytes "tcp") proxy.address
        ≡ value (record c { incoming = answer_of reply rsv w bind_port rest })
      → Negotiates proxy.auth reply extra
      → append_addr t (5 ∷ 1 ∷ 0 ∷ []) host port ≡ ok req
      → IsWire w
      → bind_port < 65536
      → connect t tcp deadline proxy address ≡ (
        ok tt,
        some (record c {
          incoming = rest;
          sent = ((c.sent ++ greeting proxy.auth) ++ extra) ++ req;
          deadline = none;
        }),
      )
  unfolding connect
  connect-accepts tcp deadline proxy address host rsv port bind_port req reply extra rest w a d n q
        v p =
      rw (a, d, tunnel-accepts deadline rsv port bind_port host req reply extra rest w n q v p) refl

-- What becomes of the connection to the proxy: a connect that succeeds returns it open and with no
-- deadline, and a connect that fails after the dial leaves it closed.
abbrev pub Settled : {A : Type 0} → Dialed A → Type 0
Settled {A} (o, none) = (r : A) → o ≢ ok r
Settled (ok r, some c) = (c.closed ≡ false) × (c.deadline ≡ none)
Settled (throw e, some c) = c.closed ≡ true
Settled (panic p, some c) = c.closed ≡ true

unwind-Settled :
    {A : Type 0} (o : Outcome A) (c : Conn)
    → ((r : A) → o ≡ ok r → (c.closed ≡ false) × (c.deadline ≡ none))
    → Settled ((unwind o c).0, some (unwind o c).1)
unwind-Settled (ok r) c h = h r refl
unwind-Settled (throw e) c h = refl
unwind-Settled (panic p) c h = refl

pub set_deadline_ok :
    (c d : Conn) {r : Unit {0}}
    → set_deadline none c ≡ (ok r, d)
    → (d.closed ≡ false) × (d.deadline ≡ none)
unfolding set_deadline
set_deadline_ok c d e = ground arith

pub over-Settled :
    {A : Type 0} (m : Io A) (d : Result Conn)
    → ((c e : Conn) (r : A) → m c ≡ (ok r, e) → (e.closed ≡ false) × (e.deadline ≡ none))
    → Settled (over d (close_on_throw m))
over-Settled {A} m (value c) h =
    unwind-Settled (m c).0 (m c).1 (λ r e. h c (m c).1 r (ap (λ (o : Outcome A). (o, (m c).1)) e))
over-Settled m (failure e) h = λ r q. cc

module _ (t : IpText) where
  tunnel_ok :
      (deadline : Option ℕ) (auth : Option Userinfo) (host : Bytes) (port : ℕ) (c d : Conn)
      {r : Unit {0}}
      → tunnel t deadline auth host port c ≡ (ok r, d)
      → (d.closed ≡ false) × (d.deadline ≡ none)
  unfolding tunnel
  tunnel_ok deadline auth host port c d e =
      let (x₁, c₁, r₁, e₁) = bind-ok (apply_deadline deadline) _ c e in
      let (x₂, c₂, r₂, e₂) = bind-ok (handshake auth) _ c₁ e₁ in
      let (x₃, c₃, r₃, e₃) = bind-ok (request t 1 host port) _ c₂ e₂ in set_deadline_ok c₃ d e₃

  -- A connect never leaks its connection: for every connector, deadline, proxy and address, either
  -- nothing was dialed and it fails, or it succeeds with the connection open and no deadline on it,
  -- or it fails and the connection has been closed.
  pub connect-Settled :
      (tcp : Connector) (deadline : Option ℕ) (proxy : ProxyAddr) (address : Bytes)
      → Settled (connect t tcp deadline proxy address)
  unfolding connect
  connect-Settled tcp deadline proxy address = addressed (host_port address)
    where
      addressed :
          (a : Outcome (Bytes × ℕ))
          → Settled (
              with_address a λ host port.
                over
                  (tcp (bytes "tcp") proxy.address)
                  (close_on_throw (tunnel t deadline proxy.auth host port)))
      addressed (ok (host, port)) =
          over-Settled (tunnel t deadline proxy.auth host port) (tcp (bytes "tcp") proxy.address)
            (λ c d r e. tunnel_ok deadline proxy.auth host port c d e)
      addressed (throw e) = λ r q. cc
      addressed (panic p) = λ r q. cc
