-- ===== src/Chain/Accepts.antt =====
-- About a chain of proxies that all answer within their protocols.
use wirez.Chain.{panic, throw, when_split, Dialer, dialed_once, add_hop, tcp_chain}
use wirez.Conn.{Conn}
use wirez.Config.Options.{is_http}
use wirez.Http.Reader.Laws.{IsField}
use wirez.Http.Tunnel.{request_text, http_dial}
use wirez.Http.Tunnel.Laws.{IsStatus, answer, tunnel_connect-accepts}
use wirez.Net.HostPort.{host_port}
use wirez.Net.IpText.{IpText}
use wirez.Prelude.{
  ℕ, ◌<◌, ◌≡◌, refl, sym, ap, ◌∙◌, Bool, true, false, Option, none, List, [], ◌∷◌, ◌++◌,
  append_assoc, append-nil, All, Bytes, bytes,
}
use wirez.Socks.Address.{WireAddr, IsWire}
use wirez.Socks.Connect.{answer_of, connect-accepts}
use wirez.Socks.Handshake.{Negotiates}
use wirez.Socks.Session.{ProxyAddr, greeting, socks5_dial}
use wirez.Socks.Wire.{append_addr}
use wirez.Throw.{Result, value, Outcome, ok}

module _ (t : IpText) (ahead : Bytes → ℕ) (field : Bytes → Bool) where
  -- What passes between a hop and its proxy, asked for `address`: what arrives, what is sent, and
  -- what is left to arrive from behind the proxy.
  pub data Talk (p : ProxyAddr) (address incoming sent rest : Bytes) : Type 0 where
    by_socks5 :
        (host req reply extra : Bytes) (rsv port bind_port : ℕ) (w : WireAddr)
        → is_http p.scheme ≡ false
        → host_port address ≡ ok (host, port)
        → Negotiates p.auth reply extra
        → append_addr t (5 ∷ 1 ∷ 0 ∷ []) host port ≡ ok req
        → IsWire w
        → bind_port < 65536
        → incoming ≡ answer_of reply rsv w bind_port rest
        → sent ≡ (greeting p.auth ++ extra) ++ req
        → Talk p address incoming sent rest
    by_http :
        (v text : Bytes) (ls : List Bytes)
        → is_http p.scheme ≡ true
        → IsStatus v (bytes "200") text
        → All (IsField field) ls
        → incoming ≡ answer v (bytes "200") text ls rest
        → sent ≡ request_text p.auth address
        → Talk p address incoming sent rest

  -- The address that a hop is asked for: the next proxy's, and at the end the destination's.
  abbrev pub next_of : List ProxyAddr → Bytes → Bytes
  next_of [] a = a
  next_of (p ∷ ps) a = p.address

  pub data Talks (a : Bytes) : List ProxyAddr → Bytes → Bytes → Bytes → Type 0 where
    done : {rest : Bytes} → Talks a [] rest [] rest
    hop :
        {p : ProxyAddr} {ps : List ProxyAddr} {incoming sent between later all rest : Bytes}
        → Talk p (next_of ps a) incoming sent between
        → Talks a ps between later rest
        → all ≡ sent ++ later
        → Talks a (p ∷ ps) incoming all rest

  -- A connection on which something was sent and something else is still to come.
  abbrev pub advanced : Conn → Bytes → Bytes → Conn
  advanced c sent incoming = record c { incoming = incoming; sent = c.sent ++ sent }

  splits :
      (o : Outcome (Bytes × ℕ)) {r : Bytes × ℕ} (x y : Outcome (Result Conn))
      → o ≡ ok r
      → when_split o x y ≡ x
  splits (ok r) x y e = refl
  splits (throw z) x y e = absurd (cc e)
  splits (panic z) x y e = absurd (cc e)

  advanced_by :
      (c : Conn) (x sent rest : Bytes)
      → c.deadline ≡ none
      → x ≡ c.sent ++ sent
      → ◌≡◌ {A = Outcome (Result Conn)}
          (ok (value (record c { incoming = rest; sent = x; deadline = none })))
          (ok (value (advanced c sent rest)))
  advanced_by c x sent rest timeless e =
      let made = λ (b : Bytes) (s : Option ℕ).
        ok (value (record c { incoming = rest; sent = b; deadline = s })) in
      ap (λ b. made b none) e ∙ ap (made (c.sent ++ sent)) (sym timeless)

  module _ (d : Dialer) (p : ProxyAddr) (deadline : Option ℕ) (network address : Bytes) (c : Conn)
      (open' : c.closed ≡ false) (writable : c.write_error ≡ none)
      (timeless : c.deadline ≡ none) where
    add_hop-Talk :
        (incoming sent rest : Bytes)
        → d deadline (bytes "tcp") p.address ≡ ok (value (record c { incoming = incoming }))
        → Talk p address incoming sent rest
        → add_hop t ahead field d p deadline network address ≡ ok (value (advanced c sent rest))
    unfolding add_hop socks5_dial http_dial
    add_hop-Talk incoming sent rest dialed
          (by_socks5 host req reply extra rsv port bind_port w s a n q v b i e) =
        let sure =
          connect-accepts t (record c { incoming = incoming }) open' writable
            (dialed_once (value (record c { incoming = incoming }))) deadline p address host rsv
            port bind_port req reply extra rest w a (ap (λ x. value (record c { incoming = x })) i)
            n q v b in
        rw s (
          splits (host_port address) _ _ a
          ∙ rw dialed (rw sure (advanced_by c _ sent rest timeless (rw e (simp append_assoc)))))
    add_hop-Talk incoming sent rest dialed (by_http v text ls h s f i e) =
        let (buffer, j, made, left) =
          tunnel_connect-accepts ahead field (record c { incoming = incoming }) open' writable
            (dialed_once (value (record c { incoming = incoming }))) deadline p address v
            (bytes "200") text ls rest (ap (λ x. value (record c { incoming = x })) i) s f refl in
        rw (h, dialed) (rw (made, left) (advanced_by c _ sent rest timeless (rw e refl)))

  -- A chain whose proxies all answer within their protocols: over a connection to the first one, or
  -- with no hop to the destination, that is open, takes what is written and has no deadline, the
  -- dial succeeds. The connection that it gives is that one, on which each proxy in turn was sent
  -- what its protocol asks for, and on which all that the destination sends is still unread.
  pub tcp_chain-accepts :
      (a : Bytes) (d : Dialer) (ps : List ProxyAddr) (deadline : Option ℕ) (c : Conn)
      (incoming sent rest : Bytes)
      → c.closed ≡ false
      → c.write_error ≡ none
      → c.deadline ≡ none
      → d deadline (bytes "tcp") (next_of ps a) ≡ ok (value (record c { incoming = incoming }))
      → Talks a ps incoming sent rest
      → tcp_chain t ahead field d ps deadline (bytes "tcp") a ≡ ok (value (advanced c sent rest))
  unfolding tcp_chain
  tcp_chain-accepts a d _ deadline c _ _ rest o w l dialed done =
      dialed
      ∙ ap (λ x. ok (value (record c { incoming = rest; sent = x }))) (sym (append-nil c.sent))
  tcp_chain-accepts a d _ deadline c _ _ rest o w l dialed
        (hop {p = p} {ps = ps} {incoming = i} {sent = s} {between = m} {later = later} talk talks
          e) =
      tcp_chain-accepts a (add_hop t ahead field d p) ps deadline (advanced c s m) m later rest o w
        l (add_hop-Talk d p deadline (bytes "tcp") (next_of ps a) c o w l i s m dialed talk) talks
      ∙ ap (λ x. ok (value (record c { incoming = rest; sent = x })))
          (append_assoc c.sent s later ∙ ap (λ x. c.sent ++ x) (sym e))
