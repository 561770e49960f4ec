-- ===== src/Socks/Session.antt =====
-- socks5Handshake, socks5Authenticate, socks5Request and socks5Connector.
use wirez.Conn.{
  Conn, Io, pure, raise, lift, ensure, ◌>>=◌, ◌>>◌, read_full, write, set_deadline, apply_deadline,
  close_on_throw,
}
use wirez.Net.HostPort.{host_port}
use wirez.Net.IpText.{IpText}
use wirez.Prelude.{
  ℕ, ◌%◌, ◌||◌, Option, none, some, [], ◌∷◌, ◌++◌, Bytes, bytes, length, get_or, ltb, ◌==◌,
  if◌then◌else◌,
}
use wirez.Socks.Wire.{append_addr, read_addr}
use wirez.Throw.{
  Error, message, message_code, via, Result, value, failure, Outcome, ok, throw, panic, throw2,
  attempt,
}
use wirez.Throw

-- url.Userinfo: `password` is `none` where the address gave no password.
pub record Userinfo : Type 0 where
  pub username : Bytes
  pub password : Option Bytes

-- `pass, _ := auth.Password()`.
abbrev pub pass_of : Userinfo → Bytes
pass_of u = elim u.password [ none ↦ [] | some p ↦ p ]

-- One -F hop, as config.go parses it.
pub data Scheme : Type 0 where
  socks5 http : Scheme

pub record ProxyAddr : Type 0 where
  pub scheme : Scheme
  pub address : Bytes
  pub auth : Option Userinfo

-- socks5ReplyText, by throwSocks5Reply: the text of a reply code, or the code itself.
unfoldable pub reply_error : ℕ → Error
reply_error rep =
    if rep == 1
    then message (bytes "general SOCKS server failure")
    else if rep == 2
    then message (bytes "connection not allowed by ruleset")
    else if rep == 3
    then message (bytes "network unreachable")
    else if rep == 4
    then message (bytes "host unreachable")
    else if rep == 5
    then message (bytes "connection refused")
    else if rep == 6
    then message (bytes "TTL expired")
    else if rep == 7
    then message (bytes "command not supported")
    else if rep == 8
    then message (bytes "address type not supported")
    else message_code (bytes "socks5: reply code") rep

-- The version, the number of methods and the methods that are offered.
abbrev pub greeting : Option Userinfo → Bytes
greeting none = 5 ∷ 1 ∷ 0 ∷ []
greeting (some u) = 5 ∷ 2 ∷ 0 ∷ 2 ∷ []

abbrev pub auth_request : Bytes → Bytes → Bytes
auth_request user pass = 1 ∷ (length user % 256) ∷ (user ++ ((length pass % 256) ∷ pass))

-- socks5Authenticate.
unfoldable pub authenticate : Userinfo → Io (Unit {0})
authenticate u =
    let user = u.username in
    let pass = pass_of u in
    if ltb 255 (length user) || ltb 255 (length pass)
    then raise (message (bytes "socks5: username or password longer than 255 bytes"))
    else (do
      write (auth_request user pass)
      resp ← read_full 2
      ensure (get_or resp 1 0 == 0) (message (bytes "socks5: authentication failed")))

-- The method that the proxy chose.
abbrev pub by_password : Option Userinfo → Io (Unit {0})
by_password none = raise (message (bytes "socks5: proxy requires authentication"))
by_password (some u) = authenticate u

unfoldable pub chosen : Option Userinfo → ℕ → Io (Unit {0})
unfolding authenticate
chosen auth method =
    if method == 0
    then pure tt
    else if method == 2
    then by_password auth
    else raise (message_code (bytes "socks5: no acceptable authentication method") method)

-- socks5Handshake.
unfoldable pub handshake : Option Userinfo → Io (Unit {0})
unfolding chosen
handshake auth = do
  write (greeting auth)
  resp ← read_full 2
  ensure (get_or resp 0 0 == 5) (message_code (bytes "socks5: bad version") (get_or resp 0 0))
  chosen auth (get_or resp 1 0)

module _ (t : IpText) where
  -- socks5Request.
  unfoldable pub request : ℕ → Bytes → ℕ → Io (Bytes × ℕ)
  unfolding reply_error
  request cmd host port = do
    req ← lift (append_addr t (5 ∷ cmd ∷ 0 ∷ []) host port)
    write req
    head ← read_full 3
    ensure (get_or head 0 0 == 5) (message_code (bytes "socks5: bad version") (get_or head 0 0))
    ensure (get_or head 1 0 == 0) (reply_error (get_or head 1 0))
    read_addr t

  -- What connect does on the connection to the proxy, for the context's deadline.
  unfoldable pub tunnel : Option ℕ → Option Userinfo → Bytes → ℕ → Io (Unit {0})
  tunnel deadline auth host port = do
    apply_deadline deadline
    handshake auth
    _ ← request 1 host port
    set_deadline none

-- A Connector: what DialContext gives for a network and an address.
abbrev pub Connector : Type 0
Connector = Bytes → Bytes → Result Conn

-- The result of an attempt over a connection, and that connection, if one was dialed, as it is left.
abbrev pub Dialed {ℓ} : Type ℓ → Type ℓ
Dialed A = Outcome A × Option Conn

abbrev pub over {ℓ} : {A : Type ℓ} → Result Conn → Io A → Dialed A
over (value c) m = ((m c).0, some (m c).1)
over (failure e) m = (throw e, none)

abbrev pub with_address {ℓ} : {A : Type ℓ} → Outcome (Bytes × ℕ) → (Bytes → ℕ → Dialed A) → Dialed A
with_address (ok (host, port)) f = f host port
with_address (throw e) f = (throw e, none)
with_address (panic p) f = (panic p, none)

module _ (t : IpText) where
  -- socks5Connector.connect.
  unfoldable pub connect : Connector → Option ℕ → ProxyAddr → Bytes → Dialed (Unit {0})
  unfolding tunnel
  connect tcp deadline proxy address = with_address (host_port address) λ host port.
      over (tcp (bytes "tcp") proxy.address)
        (close_on_throw (tunnel t deadline proxy.auth host port))

  -- The connection that a successful connect returns, or its error with the two addresses.
  abbrev pub dialed_conn : Bytes → Bytes → Dialed (Unit {0}) → Outcome (Result Conn)
  dialed_conn address proxy (ok _, some c) = ok (value c)
  dialed_conn address proxy (ok _, none) = panic Throw.nil_dereference
  dialed_conn address proxy (throw e, _) = ok (failure (via address proxy e))
  dialed_conn address proxy (panic p, _) = panic p

  -- socks5Connector.DialContext.
  unfoldable pub socks5_dial : Connector → Option ℕ → ProxyAddr → Bytes → Outcome (Result Conn)
  unfolding connect
  socks5_dial tcp deadline proxy address =
      dialed_conn address proxy.address (connect tcp deadline proxy address)
