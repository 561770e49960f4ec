-- ===== src/Chain/Names.antt =====
-- About a chain with a SOCKS5 hop in front of a proxy that is known by a name.
use wirez.Chain.{when_split, unsupported, Dialer, as_conn, dialed_once, add_hop, tcp_chain}
use wirez.Conn.{apply_deadline, close_on_throw, unwind, Io, Conn}
use wirez.Conn.Laws.{bind-ok}
use wirez.Socks.Wire.{append_addr}
use wirez.Config.Options.{is_http}
use wirez.Net.HostPort.{host_port}
use wirez.Net.IpText.{IpText}
use wirez.Prelude.{
  some, Bool-cases, inr, inl, ℕ, ◌≡◌, ◌≢◌, refl, ap, Bool, false, Option, List, [], ◌∷◌, ◌++◌,
  Bytes, bytes,
}
use wirez.Http.Tunnel.{http_dial, tunnel_connect}
use wirez.Socks.Session.{
  handshake, Userinfo, tunnel, request, over, with_address, dialed_conn, ProxyAddr, connect,
  socks5_dial,
}
use wirez.Throw.{◌>>=◌, Error, Result, value, failure, Outcome, ok, throw, panic}

-- Dialing the address gives no connection.
abbrev pub Refuses : Dialer → Bytes → Type 0
Refuses d a = (deadline : Option ℕ) (c : Conn) → d deadline (bytes "tcp") a ≢ ok (value c)

module _ (t : IpText) (ahead : Bytes → ℕ) (field : Bytes → Bool) where
  -- A connect that has no connection to its proxy.
  unconnected :
      (p : ProxyAddr) (a : Bytes) (e : Error) (o : Outcome (Bytes × ℕ))
      (m : Bytes → ℕ → Io (Unit {0})) (c : Conn)
      → dialed_conn t a p.address (with_address o λ h n. over (failure e) (m h n)) ≢ ok (value c)
  unconnected p a e (ok (h, n)) m c = λ q. cc q
  unconnected p a e (throw x) m c = λ q. cc q
  unconnected p a e (panic x) m c = λ q. cc q

  when_split-ne :
      (o : Outcome (Bytes × ℕ)) {x y z : Outcome (Result Conn)}
      → x ≢ z
      → y ≢ z
      → when_split o x y ≢ z
  when_split-ne (ok r) h k = h
  when_split-ne (throw e) h k = k
  when_split-ne (panic f) h k = k

  socks5-Refuses :
      (p : ProxyAddr) (deadline : Option ℕ) (a : Bytes) (m : Outcome (Result Conn))
      → ((c : Conn) → m ≢ ok (value c))
      → (c : Conn) → (m >>= λ r. socks5_dial t (dialed_once r) deadline p a) ≢ ok (value c)
  unfolding socks5_dial connect
  socks5-Refuses p deadline a (ok (value x)) r c = absurd (r x refl)
  socks5-Refuses p deadline a (ok (failure e)) r c =
      unconnected p a e (host_port a) (λ h n. close_on_throw (tunnel t deadline p.auth h n)) c
  socks5-Refuses p deadline a (throw x) r c = λ q. cc q
  socks5-Refuses p deadline a (panic x) r c = λ q. cc q

  http-Refuses :
      (p : ProxyAddr) (deadline : Option ℕ) (a : Bytes) (m : Outcome (Result Conn))
      → ((c : Conn) → m ≢ ok (value c))
      → (c : Conn)
      → (m >>= λ r. http_dial ahead field (dialed_once r) deadline p a >>= λ r. ok (as_conn r))
        ≢ ok (value c)
  unfolding http_dial tunnel_connect
  http-Refuses p deadline a (ok (value x)) r c = absurd (r x refl)
  http-Refuses p deadline a (ok (failure e)) r c = λ q. cc q
  http-Refuses p deadline a (throw x) r c = λ q. cc q
  http-Refuses p deadline a (panic x) r c = λ q. cc q

  -- A proxy that cannot be dialed makes a hop that cannot dial anything.
  add_hop-Refuses :
      (d : Dialer) (p : ProxyAddr) (a : Bytes)
      → Refuses d p.address
      → Refuses (add_hop t ahead field d p) a
  unfolding add_hop
  add_hop-Refuses d p a r deadline c = elim (Bool-cases (is_http p.scheme)) [
    | inl h ↦ rw h (http-Refuses p deadline a _ (r deadline) c)
    | inr h ↦ rw h (
        when_split-ne (host_port a) (socks5-Refuses p deadline a _ (r deadline) c)
          (socks5-Refuses p deadline a (ok (failure unsupported)) (λ x q. cc q) c))
  ]

  chain-Refuses :
      (d : Dialer) (ps : List ProxyAddr)
      → ((a : Bytes) → Refuses d a)
      → (a : Bytes) → Refuses (tcp_chain t ahead field d ps) a
  unfolding tcp_chain
  chain-Refuses d [] r a = r a
  chain-Refuses d (p ∷ ps) r a =
      chain-Refuses (add_hop t ahead field d p) ps (λ b. add_hop-Refuses d p b (r p.address)) a

  tcp_chain-append :
      (d : Dialer) (ps qs : List ProxyAddr)
      → tcp_chain t ahead field d (ps ++ qs)
        ≡ tcp_chain t ahead field (tcp_chain t ahead field d ps) qs
  unfolding tcp_chain
  tcp_chain-append d [] qs = refl
  tcp_chain-append d (p ∷ ps) qs = tcp_chain-append (add_hop t ahead field d p) ps qs

  -- On the connection to a SOCKS5 proxy, a request for a host that is no IP address fails.
  request-name :
      (host : Bytes) (port : ℕ) (c e : Conn) (r : Bytes × ℕ)
      → t.parse_ip host ≡ []
      → request t 1 host port c ≢ (ok r, e)
  unfolding request append_addr
  request-name host port c e r nil q =
      cc (ap (λ (x : Outcome (Bytes × ℕ) × Conn). x.0) (rw nil at q))

  tunnel-name :
      (deadline : Option ℕ) (auth : Option Userinfo) (host : Bytes) (port : ℕ) (c e : Conn)
      (r : Unit {0})
      → t.parse_ip host ≡ []
      → tunnel t deadline auth host port c ≢ (ok r, e)
  unfolding tunnel
  tunnel-name deadline auth host port c e r nil q =
      let (x₁, c₁, r₁, e₁) = bind-ok (apply_deadline deadline) _ c q in
      let (x₂, c₂, r₂, e₂) = bind-ok (handshake auth) _ c₁ e₁ in
      let (x₃, c₃, r₃, e₃) = bind-ok (request t 1 host port) _ c₂ e₂ in
      request-name host port c₂ c₃ x₃ nil r₃

  unwound :
      (p : ProxyAddr) (a : Bytes) (o : Outcome (Unit {0})) (c d : Conn)
      → ((r : Unit {0}) → o ≢ ok r)
      → dialed_conn t a p.address ((unwind o c).0, some (unwind o c).1) ≢ ok (value d)
  unwound p a (ok r) c d n = absurd (n r refl)
  unwound p a (throw x) c d n = λ q. cc q
  unwound p a (panic x) c d n = λ q. cc q

  socks5_name :
      (p : ProxyAddr) (deadline : Option ℕ) (a host : Bytes) (port : ℕ) (m : Outcome (Result Conn))
      (c : Conn)
      → host_port a ≡ ok (host, port)
      → t.parse_ip host ≡ []
      → (m >>= λ r. socks5_dial t (dialed_once r) deadline p a) ≢ ok (value c)
  unfolding socks5_dial connect
  socks5_name p deadline a host port (ok (value x)) c h nil =
      let m = tunnel t deadline p.auth host port x in
      rw h (
        unwound p a m.0 m.1 c (λ r e.
          tunnel-name deadline p.auth host port x m.1 r nil
            (ap (λ (o : Outcome (Unit {0})). (o, m.1)) e)))
  socks5_name p deadline a host port (ok (failure e)) c h nil = rw h (λ q. cc q)
  socks5_name p deadline a host port (throw x) c h nil = λ q. cc q
  socks5_name p deadline a host port (panic x) c h nil = λ q. cc q

  -- A SOCKS5 hop that is asked for a host that is no IP address.
  name-Refuses :
      (d : Dialer) (p : ProxyAddr) (a host : Bytes) (port : ℕ)
      → is_http p.scheme ≡ false
      → host_port a ≡ ok (host, port)
      → t.parse_ip host ≡ []
      → Refuses (add_hop t ahead field d p) a
  unfolding add_hop
  name-Refuses d p a host port s h nil deadline c =
      rw (s, h) (socks5_name p deadline a host port (d deadline (bytes "tcp") p.address) c h nil)

  -- In a chain, a SOCKS5 hop in front of a proxy whose host is a name and no IP address: no dial of
  -- the chain, whatever hops come before and behind, gives a connection.
  pub tcp_chain-name :
      (d : Dialer) (before behind : List ProxyAddr) (p q : ProxyAddr) (host a : Bytes) (port : ℕ)
      (deadline : Option ℕ) (c : Conn)
      → is_http p.scheme ≡ false
      → host_port q.address ≡ ok (host, port)
      → t.parse_ip host ≡ []
      → tcp_chain t ahead field d (before ++ p ∷ q ∷ behind) deadline (bytes "tcp") a ≢ ok (value c)
  unfolding tcp_chain
  tcp_chain-name d before behind p q host a port deadline c s h nil =
      let first : Dialer = tcp_chain t ahead field d before in
      let second : Dialer = add_hop t ahead field first p in
      rw (tcp_chain-append d before (p ∷ q ∷ behind)) (
        chain-Refuses (add_hop t ahead field second q) behind
          (λ b. add_hop-Refuses second q b (name-Refuses first p q.address host port s h nil)) a
          deadline c)
