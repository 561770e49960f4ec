-- ===== src/Socks/Datagram.antt =====
-- About socks5UDPDatagram and socks5ParseUDPDatagram of socks5.go, and the addresses in them.
use mathlib.Core.Path.{ap₂}
use wirez.Conn.{Conn, fresh}
use wirez.Net.Ip.{v4_in_v6, to4, to16, is_nil, to4_long, to16_long}
use wirez.Net.IpText.{IpText, IpTextLaws}
use wirez.Prelude.{
  ℕ, ◌-◌, ◌<◌, ◌≡◌, refl, sym, ◌∙◌, ap, inl, inr, ◌≢◌, false, not, [], ◌∷◌, ◌++◌, append_assoc,
  arith, Bytes, AreBytes, length, length-append, drop, drop_to_last, ltb, ==_iff, ◌==◌,
  if◌then◌else◌, Bool-cases,
}
use wirez.Socks.Address.{
  WireAddr, ip4, ip6, encode, IsWire, host_of, read_addr-encode, read_addr_ok,
}
use wirez.Socks.Wire.{
  be16, append_addr, atyp_addr, read_addr, udp_datagram, parse_udp_datagram, split_payload,
}
use wirez.Throw.{Outcome, ok, throw, panic, bind-ok}

-- The form in which socks5AppendAddr writes an address.
abbrev pub wire_of : Bytes → WireAddr
wire_of ip = if not (is_nil (to4 ip)) then ip4 (to4 ip) else ip6 (to16 ip)

wire_of-IsWire : (ip : Bytes) → length ip ≡ 16 → IsWire (wire_of ip)
wire_of-IsWire ip l = elim (to4_long ip l) [
  | inl e ↦ rw e (rw (to16_long ip l) l)
  | inr (e, same) ↦ go (to4 ip) e
]
  where
    go : (a : Bytes) → length a ≡ 4 → IsWire (if not (is_nil a) then ip4 a else ip6 (to16 ip))
    go [] e = absurd (omega arith)
    go (x ∷ xs) e = e

module _ (t : IpText) (laws : IpTextLaws t) where
  open t use {parse_ip, ip_string}

  -- What the reader calls a written address is the address, printed.
  host_of-wire_of : (ip : Bytes) → length ip ≡ 16 → host_of t (wire_of ip) ≡ ip_string ip
  host_of-wire_of ip l = elim (to4_long ip l) [
    | inl e ↦ rw e (ap ip_string (to16_long ip l))
    | inr (e, same) ↦ go (to4 ip) e same
  ]
    where
      go :
          (a : Bytes)
          → length a ≡ 4
          → ip ≡ v4_in_v6 ++ a
          → host_of t (if not (is_nil a) then ip4 a else ip6 (to16 ip)) ≡ ip_string ip
      go [] e same = absurd (omega arith)
      go (x ∷ xs) e same = sym (laws.string_mapped (x ∷ xs) e) ∙ ap ip_string (sym same)

  atyp_addr-encode : (ip : Bytes) → atyp_addr t ip ≡ encode (wire_of ip)
  unfolding atyp_addr
  atyp_addr-encode ip = elim (Bool-cases (is_nil (to4 ip))) [
    | inl e ↦ rw e refl
    | inr e ↦ rw e refl
  ]

  parsed_length : (host : Bytes) → parse_ip host ≢ [] → length (parse_ip host) ≡ 16
  parsed_length host h = elim (laws.parse_length host) [ inl e ↦ absurd (h e) | inr l ↦ l ]

  not_nil : (ip : Bytes) → ip ≢ [] → is_nil ip ≡ false
  not_nil [] h = absurd (h refl)
  not_nil (x ∷ xs) h = refl

  -- An IP literal is appended as one wire address with its port.
  pub append_addr-encode :
      (b host : Bytes) (port : ℕ)
      → parse_ip host ≢ []
      → append_addr t b host port ≡ ok (b ++ (encode (wire_of (parse_ip host)) ++ be16 port))
  unfolding append_addr
  append_addr-encode b host port h =
      rw (not_nil (parse_ip host) h)
        (ap (λ (a : Bytes). ok (b ++ (a ++ be16 port))) (atyp_addr-encode (parse_ip host)))

  -- Only an address literal is appended.
  pub append_addr-ne_nil :
      (b host : Bytes) (port : ℕ) {r : Bytes}
      → append_addr t b host port ≡ ok r
      → parse_ip host ≢ []
  unfolding append_addr
  append_addr-ne_nil b host port e n = cc (ap (λ (ip : Bytes). is_nil ip) n)

  ok-injective : {x y : Bytes} → ok x ≡ ok y → x ≡ y
  ok-injective q = cc

  -- What socks5AppendAddr writes, socks5ReadAddr reads: the same port, the address in its printed
  -- form, and none of the bytes behind them.
  pub read_addr-append_addr :
      (c : Conn) (host rest b : Bytes) (port : ℕ)
      → c.closed ≡ false
      → port < 65536
      → append_addr t [] host port ≡ ok b
      → read_addr t (record c { incoming = b ++ rest })
        ≡ (ok (ip_string (parse_ip host), port), record c { incoming = rest })
  read_addr-append_addr c host rest b port open' p e =
      let ip = parse_ip host in
      let h = append_addr-ne_nil [] host port e in
      let written : b ≡ encode (wire_of ip) ++ be16 port =
        ok-injective (sym e ∙ append_addr-encode [] host port h) in
      let l = parsed_length host h in
      rw (written, append_assoc (encode (wire_of ip)) (be16 port) rest)
        (read_addr-encode t c open' (wire_of ip) port rest (wire_of-IsWire ip l) p
          ∙ ap (λ (s : Bytes). (ok (s, port), record c { incoming = rest })) (host_of-wire_of ip l))

  -- A literal is split from a datagram as it was put in; the header is three zero bytes.
  parse_framed :
      (x payload : Bytes) (host : Bytes) (port : ℕ)
      → 0 < length x
      → read_addr t (fresh (x ++ payload)) ≡ (ok (host, port), fresh payload)
      → parse_udp_datagram t (0 ∷ 0 ∷ 0 ∷ (x ++ payload)) ≡ ok (host, port, payload)
  unfolding parse_udp_datagram
  parse_framed x payload host port n e =
      let long : ltb (length (0 ∷ 0 ∷ 0 ∷ (x ++ payload))) 4 ≡ false =
        ground (arith, length-append x payload) in
      rw (long, e) (ap (λ (p : Bytes). ok (host, port, p)) (drop_to_last (0 ∷ 0 ∷ 0 ∷ x) payload))

  -- A datagram that is made of a host, a port below 65536 and a payload is read back as that host as
  -- it is printed, that port and that payload, whatever bytes the payload holds.
  pub parse_udp_datagram-udp_datagram :
      (host payload d : Bytes) (port : ℕ)
      → port < 65536
      → udp_datagram t host port payload ≡ ok d
      → parse_udp_datagram t d ≡ ok (ip_string (parse_ip host), port, payload)
  unfolding udp_datagram
  parse_udp_datagram-udp_datagram host payload d port p e =
      let x = encode (wire_of (parse_ip host)) ++ be16 port in
      let (b, wrote, f) = bind-ok (append_addr t (0 ∷ 0 ∷ 0 ∷ []) host port) _ e in
      let h = append_addr-ne_nil (0 ∷ 0 ∷ 0 ∷ []) host port wrote in
      let header : b ≡ 0 ∷ 0 ∷ 0 ∷ x =
        ok-injective (sym wrote ∙ append_addr-encode (0 ∷ 0 ∷ 0 ∷ []) host port h) in
      let whole : d ≡ 0 ∷ 0 ∷ 0 ∷ (x ++ payload) =
        ok-injective (sym f) ∙ ap (λ (r : Bytes). r ++ payload) header in
      let some_bytes : 0 < length x =
        omega (arith, length-append (encode (wire_of (parse_ip host))) (be16 port)) in
      ap (parse_udp_datagram t) whole
      ∙ parse_framed x payload (ip_string (parse_ip host)) port some_bytes (
          read_addr-append_addr (fresh payload) host payload x port refl p
            (append_addr-encode [] host port h))

module _ (t : IpText) where
  split_payload_ok :
      (x y z : ℕ) (r : Bytes) (m : Outcome (Bytes × ℕ) × Conn) {host payload : Bytes} {port : ℕ}
      → ((c : Conn) (h : Bytes) (n : ℕ) → m ≡ (ok (h, n), c) → (q : Bytes) × (r ≡ q ++ c.incoming))
      → split_payload t (x ∷ y ∷ z ∷ r) m ≡ ok (host, port, payload)
      → (c : Conn) × (m ≡ (ok (host, port), c)) × (payload ≡ c.incoming)
  split_payload_ok x y z r (ok (h, n), c) {host} {payload} {port} suffix e =
      let (q, same) = suffix c h n refl in
      let tail : drop (length (x ∷ y ∷ z ∷ r) - length c.incoming) (x ∷ y ∷ z ∷ r) ≡ c.incoming =
        rw same (drop_to_last (x ∷ y ∷ z ∷ q) c.incoming) in
      (c, ground arith, ground (arith, tail))
  split_payload_ok x y z r (throw a, c) suffix e = absurd (cc)
  split_payload_ok x y z r (panic p, c) suffix e = absurd (cc)

  -- A datagram that is accepted is no fragment and holds, behind three bytes, one wire address with
  -- its port and then the payload: none of its bytes is lost or read twice.
  pub parse_udp_datagram_ok :
      (b : Bytes) {host payload : Bytes} {port : ℕ}
      → AreBytes b
      → parse_udp_datagram t b ≡ ok (host, port, payload)
      → (w : WireAddr) × IsWire w
        × (host ≡ host_of t w)
        × (port < 65536)
        × (drop 2 b ≡ 0 ∷ (encode w ++ (be16 port ++ payload)))
  unfolding parse_udp_datagram
  parse_udp_datagram_ok [] h e = absurd (cc)
  parse_udp_datagram_ok (x ∷ []) h e = absurd (cc)
  parse_udp_datagram_ok (x ∷ y ∷ []) h e = absurd (cc)
  parse_udp_datagram_ok (x ∷ y ∷ z ∷ r) {host} {payload} {port} h e =
      elim (Bool-cases (ltb (length (x ∷ y ∷ z ∷ r)) 4)) [
        | inl short ↦ absurd (ground arith)
        | inr long ↦ elim (Bool-cases (z == 0)) [
          | inr frag ↦ absurd (ground arith)
          | inl whole ↦
              let (c, m, same) =
                split_payload_ok x y z r (read_addr t (fresh r)) suffix (rw (long, whole) at e) in
              let (w, v, a, n, i) = read_addr_ok t (fresh r) c h.1.1.1 m in
              (
                w,
                v,
                a,
                n,
                ap₂ (λ (k : ℕ) (s : Bytes). k ∷ s) ((==_iff z 0).0 whole)
                    (i ∙ ap (λ (s : Bytes). encode w ++ (be16 port ++ s)) (sym same)),
              )
        ]
      ]
    where
      suffix :
          (c : Conn) (host : Bytes) (n : ℕ)
          → read_addr t (fresh r) ≡ (ok (host, n), c)
          → (q : Bytes) × (r ≡ q ++ c.incoming)
      suffix c host n m =
          let (w, v, a, k, i) = read_addr_ok t (fresh r) c h.1.1.1 m in
          (encode w ++ be16 n, i ∙ sym (append_assoc (encode w) (be16 n) c.incoming))
