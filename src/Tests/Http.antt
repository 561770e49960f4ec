-- ===== src/Tests/Http.antt =====
-- An HTTP proxy that agrees to a tunnel, and one that refuses it.
use wirez.Conn.{fresh}
use wirez.Http.Base64.{base64}
use wirez.Http.Reader.{Reader}
use wirez.Http.Reader.Laws.{IsField}
use wirez.Http.Tunnel.{request_text, tunnel_connect}
use wirez.Http.Tunnel.Laws.{IsStatus, answer, tunnel_connect-accepts, tunnel_connect-Settled}
use wirez.Http.Tunnel.Reads.{read_all, read_all_whole}
use wirez.Prelude.{
  ap, get_or, ℕ, ◌≡◌, ◌≢◌, refl, Bool, true, some, [], ◌∷◌, ◌++◌, Bytes, bytes, arith, List, All,
}
use wirez.Socks.Session.{Userinfo, ProxyAddr, Scheme, Connector}
use wirez.Socks.Connect.{Settled}
use wirez.Throw.{value, ok}

base64_runs : base64 (bytes "me:pw") ≡ bytes "bWU6cHc="
unfolding base64
base64_runs = refl

abbrev user : Userinfo
user = record { username = bytes "me"; password = some (bytes "pw") }

abbrev proxy : ProxyAddr
proxy = record { scheme = Scheme.http; address = bytes "127.0.0.1:8080"; auth = some user }

-- Two bytes of what follows a line come with it.
abbrev two : Bytes → ℕ
two rest = 2

abbrev any : Bytes → Bool
any line = true

abbrev header : List Bytes
header = bytes "Via: x" ∷ []

abbrev banner : Bytes
banner = bytes "SSH-2.0"

abbrev agrees : Connector
agrees network address =
    value (fresh (answer (bytes "1.1") (bytes "200") (bytes "OK") header banner))

abbrev refuses : Connector
refuses network address = value (fresh (answer (bytes "1.1") (bytes "407") (bytes "No") header []))

ok-IsStatus : IsStatus (bytes "1.1") (bytes "200") (bytes "OK")
ok-IsStatus = record { version_word = refl; code_word = refl; one_line = refl }

no-IsStatus : IsStatus (bytes "1.1") (bytes "407") (bytes "No")
no-IsStatus = record { version_word = refl; code_word = refl; one_line = refl }

other_code : bytes "407" ≢ bytes "200"
other_code e = omega (arith, ap (λ (s : Bytes). get_or s 0 0) e)

header-fields : All (IsField any) header
header-fields = ((λ e. cc, refl, refl), tt)

tunnel_connect-accepts_example :
    (buffer i : Bytes) × (tunnel_connect two any agrees (some 9) proxy (bytes "a:22") ≡ (
      ok buffer,
      some (record (fresh []) { incoming = i; sent = request_text (some user) (bytes "a:22") }),
    ))
    × (buffer ++ i ≡ banner)
tunnel_connect-accepts_example =
    tunnel_connect-accepts two any (fresh []) refl refl agrees (some 9) proxy (bytes "a:22")
      (bytes "1.1") (bytes "200") (bytes "OK") header banner refl ok-IsStatus header-fields refl

abbrev opened : Reader
opened = record { ahead = bytes "SS"; conn = fresh (bytes "H-2.0") }

read_all_whole_example :
    read_all ((0, 3) ∷ (5, 1) ∷ (5, 4) ∷ (9, 0) ∷ (0, 0) ∷ (0, 0) ∷ (0, 0) ∷ []) opened ≡ banner
read_all_whole_example =
    read_all_whole ((0, 3) ∷ (5, 1) ∷ (5, 4) ∷ (9, 0) ∷ (0, 0) ∷ (0, 0) ∷ (0, 0) ∷ []) opened
      (omega arith) refl

tunnel_connect-Settled_example :
    Settled (tunnel_connect two any agrees (some 9) proxy (bytes "a:22"))
tunnel_connect-Settled_example = tunnel_connect-Settled two any agrees (some 9) proxy (bytes "a:22")
