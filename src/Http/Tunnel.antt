-- ===== src/Http/Tunnel.antt =====
-- httpConnector and httpTunnel: the request for a tunnel, the answer of the proxy, and reads through
-- the tunnel. `ahead` and `field` are those of the reader.
pub mod Laws
pub mod Reads
use wirez.Conn.{Conn, Io, pure, ◌>>=◌, ◌>>◌, write, set_deadline, apply_deadline, close_on_throw}
use wirez.Http.Base64.{base64}
use wirez.Http.Reader.{Reader, unread, read_line, read_mime_header}
use wirez.Prelude.{
  ℕ, zero, suc, Bool, Option, none, some, List, [], ◌∷◌, ◌++◌, Bytes, bytes, length, take, drop,
  equal, index, ◌==◌, if◌then◌else◌,
}
use wirez.Socks.Session.{Userinfo, pass_of, ProxyAddr, Connector, Dialed, over}
use wirez.Throw.{
  Error, message_of, via, net_closed, Result, value, failure, Outcome, ok, throw, panic,
}
use wirez.Throw

abbrev pub crlf : Bytes
crlf = b'\r' ∷ b'\n' ∷ []

abbrev pub authorization : Option Userinfo → Bytes
authorization none = []
authorization (some u) =
    bytes "Proxy-Authorization: Basic " ++ (base64 (u.username ++ b':' ∷ pass_of u) ++ crlf)

-- All that httpConnect writes.
abbrev pub request_text : Option Userinfo → Bytes → Bytes
request_text auth address =
    bytes "CONNECT "
    ++ (address
        ++ (bytes " HTTP/1.1"
            ++ (crlf ++ (bytes "Host: " ++ (address ++ (crlf ++ (authorization auth ++ crlf)))))))

-- strings.SplitN(s, c, n) for one byte.
abbrev pub split_at : Bytes → Option ℕ → (Bytes → List Bytes) → List Bytes
split_at s none rest = s ∷ []
split_at s (some i) rest = take i s ∷ rest (drop (suc i) s)

unfoldable pub split_n : ℕ → ℕ → Bytes → List Bytes
split_n c zero s = []
split_n c (suc zero) s = s ∷ []
split_n c (suc (suc n)) s = split_at s (index c s) (split_n c (suc n))

abbrev pub has_prefix : Bytes → Bytes → Bool
has_prefix s prefix = equal (take (length prefix) s) prefix

abbrev pub trim_prefix : Bytes → Bytes → Bytes
trim_prefix s prefix = if has_prefix s prefix then drop (length prefix) s else s

-- The code of the status line, once the header has been read.
abbrev pub decided :
    Bytes → Bytes → Bytes → Outcome (Unit {0}) × Reader → Outcome (Unit {0}) × Reader
decided status version code (ok _, r) =
    if equal code (bytes "200")
    then (ok tt, r)
    else (throw (message_of (bytes "http proxy") (trim_prefix status (version ++ b' ' ∷ []))), r)
decided status version code (throw e, r) = (throw e, r)
decided status version code (panic p, r) = (panic p, r)

abbrev malformed : Bytes → Error
malformed status = message_of (bytes "http proxy: malformed http_response") status

module _ (ahead : Bytes → ℕ) (field : Bytes → Bool) where
  abbrev pub on_status : Bytes → List Bytes → Reader → Outcome (Unit {0}) × Reader
  on_status status (version ∷ code ∷ ps) r =
      if has_prefix version (bytes "HTTP/")
      then decided status version code (read_mime_header ahead field r)
      else (throw (malformed status), r)
  on_status status _ r = (throw (malformed status), r)

  abbrev pub on_line : Outcome Bytes × Reader → Outcome (Unit {0}) × Reader
  on_line (ok status, r) = on_status status (split_n b' ' 3 status) r
  on_line (throw e, r) = (throw e, r)
  on_line (panic p, r) = (panic p, r)

  -- The answer is read through a new reader; what is left in it stays in front of the connection.
  abbrev pub kept : Outcome (Unit {0}) × Reader → Outcome Bytes × Conn
  kept (ok _, r) = (ok r.ahead, r.conn)
  kept (throw e, r) = (throw e, r.conn)
  kept (panic p, r) = (panic p, r.conn)

  unfoldable pub http_response : Io Bytes
  http_response c = kept (on_line (read_line ahead (record { ahead = []; conn = c })))

  -- httpConnect, which gives the bytes that the tunnel's reader holds.
  unfoldable pub http_connect : Option ℕ → Option Userinfo → Bytes → Io Bytes
  http_connect deadline auth address = do
    apply_deadline deadline
    write (request_text auth address)
    buffer ← http_response
    set_deadline none
    pure buffer

  -- httpConnector.connect.
  unfoldable pub tunnel_connect : Connector → Option ℕ → ProxyAddr → Bytes → Dialed Bytes
  tunnel_connect tcp deadline proxy address =
      over (tcp (bytes "tcp") proxy.address)
        (close_on_throw (http_connect deadline proxy.auth address))

  -- httpTunnel is a Reader over its connection.
  abbrev pub dialed_tunnel : Bytes → Bytes → Dialed Bytes → Outcome (Result Reader)
  dialed_tunnel address proxy (ok buffer, some c) = ok (value (record { ahead = buffer; conn = c }))
  dialed_tunnel address proxy (ok buffer, none) = panic Throw.nil_dereference
  dialed_tunnel address proxy (throw e, _) = ok (failure (via address proxy e))
  dialed_tunnel address proxy (panic p, _) = panic p

  -- httpConnector.DialContext.
  unfoldable pub http_dial : Connector → Option ℕ → ProxyAddr → Bytes → Outcome (Result Reader)
  http_dial tcp deadline proxy address =
      dialed_tunnel address proxy.address (tunnel_connect tcp deadline proxy address)

-- httpTunnel.Read into n bytes: what is buffered, and with nothing buffered what one read of the
-- connection gives, `some` of its bytes, which the reader keeps as far as n bytes do not hold it.
abbrev pub read_chunk : ℕ → ℕ → Reader → Bytes → Outcome Bytes × Reader
read_chunk n chunk r [] = (throw r.conn.ending, r)
read_chunk n chunk r (c ∷ s) =
    let got = take chunk (c ∷ s) in
    (
      ok (take n got),
      record { ahead = drop n got; conn = record r.conn { incoming = drop chunk (c ∷ s) } },
    )

abbrev pub read_buffered : ℕ → ℕ → Reader → Bytes → Outcome Bytes × Reader
read_buffered n chunk r [] =
    if r.conn.closed then (throw net_closed, r) else read_chunk n chunk r r.conn.incoming
read_buffered n chunk r (c ∷ s) = (ok (take n r.ahead), record r { ahead = drop n r.ahead })

unfoldable pub tunnel_read : ℕ → ℕ → Reader → Outcome Bytes × Reader
tunnel_read zero chunk r = (ok [], r)
tunnel_read (suc n) chunk r = read_buffered (suc n) chunk r r.ahead
