-- ===== src/Dns/Stream.antt =====
-- DNS over TCP: readDNSMessage, writeDNSMessage, and forwardDNSTCP after its dial.
use wirez.Conn.{Conn, Io, ◌>>=◌, ◌>>◌, read_full, write, set_deadline}
use wirez.Conn.Laws.{read_full_exact, write-open, set_deadline-open}
use wirez.Prelude.{ℕ, ◌<◌, ◌≡◌, refl, sym, false, none, some, [], ◌++◌, arith, Bytes, length}
use wirez.Socks.Wire.{be16, uint16}
use wirez.Throw.{ok}

-- readDNSMessage: the length in two bytes, and that many bytes.
unfoldable pub read_dns_message : Io Bytes
read_dns_message = do len ← read_full 2; read_full (uint16 len)

-- The bytes of writeDNSMessage; the length is cut to 16 bits.
abbrev pub frame : Bytes → Bytes
frame msg = be16 (length msg) ++ msg

unfoldable pub write_dns_message : Bytes → Io (Unit {0})
write_dns_message msg = write (frame msg)

-- forwardDNSTCP on the connection that was dialed, with its deadline.
unfoldable pub forward_tcp : ℕ → Bytes → Io Bytes
unfolding read_dns_message write_dns_message
forward_tcp deadline query = do
  set_deadline (some deadline)
  write_dns_message query
  read_dns_message

-- A message that fits its length field is read back from the stream, and what stands behind it
-- stays there.
pub read_dns_message-frame :
    (c : Conn) (msg rest : Bytes)
    → c.closed ≡ false
    → length msg < 65536
    → read_dns_message (record c { incoming = frame msg ++ rest })
      ≡ (ok msg, record c { incoming = rest })
unfolding read_dns_message
read_dns_message-frame c msg rest h n =
    let len : uint16 (be16 (length msg)) ≡ length msg = omega arith in
    rw (read_full_exact 2 c (be16 (length msg)) (msg ++ rest) h refl)
      (read_full_exact (uint16 (be16 (length msg))) c msg rest h (sym len))

-- What one end writes as a message, the other end reads as that message.
pub read_dns_message-write_dns_message :
    (w r : Conn) (msg rest : Bytes)
    → w.closed ≡ false
    → w.write_error ≡ none
    → w.sent ≡ []
    → r.closed ≡ false
    → length msg < 65536
    → read_dns_message (record r { incoming = (write_dns_message msg w).1.sent ++ rest })
      ≡ (ok msg, record r { incoming = rest })
unfolding write_dns_message
read_dns_message-write_dns_message w r msg rest h e s g n =
    rw (write-open (frame msg) w h e, s) (read_dns_message-frame r msg rest g n)

-- The exchange over TCP sends the query as one message and returns the answer, whatever its bytes.
pub forward_tcp_answers :
    (c : Conn) (deadline : ℕ) (query msg rest : Bytes)
    → c.closed ≡ false
    → c.write_error ≡ none
    → length msg < 65536
    → forward_tcp deadline query (record c { incoming = frame msg ++ rest }) ≡ (
      ok msg,
      record c { incoming = rest; sent = c.sent ++ frame query; deadline = some deadline },
    )
unfolding forward_tcp
forward_tcp_answers c deadline query msg rest h e n =
    rw
      (
        set_deadline-open (some deadline) (record c { incoming = frame msg ++ rest }) h,
        write-open (frame query)
            (record c { incoming = frame msg ++ rest; deadline = some deadline }) h e,
      )
      (read_dns_message-frame (record c { sent = c.sent ++ frame query; deadline = some deadline })
        msg rest h n)
