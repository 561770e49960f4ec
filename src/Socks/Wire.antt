-- ===== src/Socks/Wire.antt =====
-- socks5AppendAddr, socks5ReadAddr, socks5UDPDatagram and socks5ParseUDPDatagram.
use wirez.Conn.{Conn, Io, pure, raise, ◌>>=◌, read_full, fresh}
use wirez.Net.Ip.{to4, to16, is_nil}
use wirez.Net.IpText.{IpText}
use wirez.Prelude.{
  ℕ, ◌+◌, ◌-◌, ◌*◌, ◌/◌, ◌%◌, not, [], ◌∷◌, ◌++◌, Bytes, bytes, length, drop, get_or, ltb, ◌==◌,
  if◌then◌else◌,
}
use wirez.Throw.{message, message_of, message_code, Outcome, ok, throw, panic}
use wirez.Throw

-- binary.BigEndian.AppendUint16: the two bytes behind `b`.
abbrev pub be16 : ℕ → Bytes
be16 n = (n / 256 % 256) ∷ (n % 256) ∷ []

-- binary.BigEndian.Uint16 of two bytes.
abbrev pub uint16 : Bytes → ℕ
uint16 b = get_or b 0 0 * 256 + get_or b 1 0

-- readFull into a buffer of one byte, and that byte.
abbrev pub read_byte : Io ℕ
read_byte = read_full 1 >>= λ b. pure (get_or b 0 0)

module _ (t : IpText) where
  open t use {parse_ip, ip_string}

  -- The address type with the bytes of the address.
  unfoldable pub atyp_addr : Bytes → Bytes
  atyp_addr ip = if not (is_nil (to4 ip)) then 1 ∷ to4 ip else 4 ∷ to16 ip

  -- socks5AppendAddr.
  unfoldable pub append_addr : Bytes → Bytes → ℕ → Outcome Bytes
  unfolding atyp_addr
  append_addr b host port =
      let ip = parse_ip host in
      if is_nil ip
      then throw (message_of (bytes "socks5: not an IP address") host)
      else ok (b ++ (atyp_addr ip ++ be16 port))

  read_domain : Io Bytes
  read_domain = read_byte >>= λ n. read_full n

  unfoldable pub read_host : ℕ → Io Bytes
  unfolding read_domain
  read_host atyp =
      if atyp == 1
      then (read_full 4 >>= λ b. pure (ip_string b))
      else if atyp == 4
      then (read_full 16 >>= λ b. pure (ip_string b))
      else if atyp == 3
      then read_domain
      else raise (message_code (bytes "socks5: bad address type") atyp)

  -- socks5ReadAddr.
  unfoldable pub read_addr : Io (Bytes × ℕ)
  unfolding read_host
  read_addr = do atyp ← read_byte; host ← read_host atyp; p ← read_full 2; pure (host, uint16 p)

  -- socks5UDPDatagram: RSV(2) FRAG(1) ATYP ADDR PORT DATA.
  unfoldable pub udp_datagram : Bytes → ℕ → Bytes → Outcome Bytes
  udp_datagram host port payload =
      Throw.◌>>=◌ (append_addr (0 ∷ 0 ∷ 0 ∷ []) host port) λ b. ok (b ++ payload)

  -- b[len(b)-r.Len():], where the reader over b[3:] has been left at `c`.
  abbrev pub split_payload : Bytes → Outcome (Bytes × ℕ) × Conn → Outcome (Bytes × ℕ × Bytes)
  split_payload b (ok (host, port), c) = ok (host, port, drop (length b - length c.incoming) b)
  split_payload b (throw e, c) = throw e
  split_payload b (panic p, c) = panic p

  -- socks5ParseUDPDatagram: the source address and the payload of a relayed datagram.
  unfoldable pub parse_udp_datagram : Bytes → Outcome (Bytes × ℕ × Bytes)
  parse_udp_datagram b =
      if ltb (length b) 4
      then throw (message (bytes "socks5: short udp datagram"))
      else if not (get_or b 2 0 == 0)
      then throw (message (bytes "socks5: udp fragmentation is not supported"))
      else split_payload b (read_addr (fresh (drop 3 b)))
