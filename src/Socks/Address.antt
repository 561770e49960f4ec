-- ===== src/Socks/Address.antt =====
-- About socks5ReadAddr of socks5.go: the address field of RFC 1928.
use mathlib.Core.Path.{subst, ap₂}
use wirez.Conn.{Conn, pure, ◌>>=◌, read_full}
use wirez.Conn.Laws.{bind-ok, read_full_exact, read_full_ok}
use wirez.Net.IpText.{IpText}
use wirez.Prelude.{
  ℕ, ◌+◌, ◌*◌, ◌/◌, ◌%◌, ◌<◌, ◌≡◌, refl, sym, ◌∙◌, ap, inl, inr, false, [], ◌∷◌, ◌++◌, arith, Bytes,
  IsByte, AreBytes, All-append_right, length, get_or, ◌==◌, Bool-cases,
}
use wirez.Socks.Wire.{be16, uint16, read_byte, read_addr, read_host}
use wirez.Throw.{Outcome, ok}

-- One address as it stands on the wire.
pub data WireAddr : Type 0 where
  ip4 ip6 domain : Bytes → WireAddr

abbrev pub encode : WireAddr → Bytes
encode (ip4 a) = 1 ∷ a
encode (ip6 a) = 4 ∷ a
encode (domain d) = 3 ∷ length d ∷ d

abbrev pub IsWire : WireAddr → Type 0
IsWire (ip4 a) = length a ≡ 4
IsWire (ip6 a) = length a ≡ 16
IsWire (domain d) = length d < 256

pub be16_parts : (n : ℕ) → n < 65536 → uint16 (be16 n) ≡ n
be16_parts n h = omega arith

module _ (t : IpText) where
  open t use {ip_string}

  -- What socks5ReadAddr calls the host.
  abbrev pub host_of : WireAddr → Bytes
  host_of (ip4 a) = ip_string a
  host_of (ip6 a) = ip_string a
  host_of (domain d) = d

  module _ (c : Conn) (h : c.closed ≡ false) where
    -- The bytes of one address and port are read, and every byte behind them stays.
    pub read_addr-encode :
        (w : WireAddr) (port : ℕ) (rest : Bytes)
        → IsWire w
        → port < 65536
        → read_addr t (record c { incoming = encode w ++ (be16 port ++ rest) })
          ≡ (ok (host_of w, port), record c { incoming = rest })
    unfolding read_addr
    read_addr-encode (ip4 a) port rest v p =
        rw
          (
            read_full_exact 1 c (1 ∷ []) (a ++ (be16 port ++ rest)) h refl,
            read_full_exact 4 c a (be16 port ++ rest) h v,
            read_full_exact 2 c (be16 port) rest h refl,
            be16_parts port p,
          )
          refl
    read_addr-encode (ip6 a) port rest v p =
        rw
          (
            read_full_exact 1 c (4 ∷ []) (a ++ (be16 port ++ rest)) h refl,
            read_full_exact 16 c a (be16 port ++ rest) h v,
            read_full_exact 2 c (be16 port) rest h refl,
            be16_parts port p,
          )
          refl
    read_addr-encode (domain d) port rest v p =
        rw
          (
            read_full_exact 1 c (3 ∷ []) (length d ∷ (d ++ (be16 port ++ rest))) h refl,
            read_full_exact 1 c (length d ∷ []) (d ++ (be16 port ++ rest)) h refl,
            read_full_exact (length d) c d (be16 port ++ rest) h refl,
            read_full_exact 2 c (be16 port) rest h refl,
            be16_parts port p,
          )
          refl

-- A byte that is read was the first one.
pub read_byte_ok :
    (c c' : Conn) {b : ℕ}
    → read_byte c ≡ (ok b, c')
    → (c.incoming ≡ b ∷ c'.incoming) × (c' ≡ record c { incoming = c'.incoming })
read_byte_ok c c' {b} h =
    let (bs, d, r, e) = bind-ok (read_full 1) (λ bs. pure (get_or bs 0 0)) c h in
    one bs d (read_full_ok 1 c d r) e
  where
    one :
        (bs : Bytes) (d : Conn)
        → (length bs ≡ 1)
          × (c.incoming ≡ bs ++ d.incoming)
          × (d ≡ record c { incoming = d.incoming })
        → ◌≡◌ {A = Outcome ℕ × Conn} (ok (get_or bs 0 0), d) (ok b, c')
        → (c.incoming ≡ b ∷ c'.incoming) × (c' ≡ record c { incoming = c'.incoming })
    one [] d (l, i, s) e = absurd (omega arith)
    one (x ∷ []) d (l, i, s) e = ground arith
    one (x ∷ y ∷ bs) d (l, i, s) e = absurd (omega arith)

module _ (t : IpText) where
  open t use {ip_string}

  read_host_ok :
      (atyp : ℕ) (c c' : Conn) {host : Bytes}
      → AreBytes c.incoming
      → read_host t atyp c ≡ (ok host, c')
      → (w : WireAddr) × IsWire w
        × (host ≡ host_of t w)
        × (atyp ∷ c.incoming ≡ encode w ++ c'.incoming)
  unfolding read_host
  read_host_ok atyp c c' {host} h e = elim (Bool-cases (atyp == 1)) [
    | inl k ↦
        let (a, d, r, f) = bind-ok (read_full 4) (λ b. pure (ip_string b)) c (rw k at e) in
        let (l, i, s) = read_full_ok 4 c d r in (ip4 a, l, ground arith, ground arith)
    | inr k ↦ elim (Bool-cases (atyp == 4)) [
      | inl k4 ↦
          let (a, d, r, f) = bind-ok (read_full 16) (λ b. pure (ip_string b)) c (rw (k, k4) at e) in
          let (l, i, s) = read_full_ok 16 c d r in (ip6 a, l, ground arith, ground arith)
      | inr k4 ↦ elim (Bool-cases (atyp == 3)) [
        | inl k3 ↦
            let (n, d, r, f) = bind-ok read_byte (λ n. read_full n) c (rw (k, k4, k3) at e) in
            let (i, s) = read_byte_ok c d r in
            let (l, j, u) = read_full_ok n d c' f in
            (domain host, omega (arith, (subst AreBytes i h).0), refl, ground arith)
        | inr k3 ↦ absurd (ground arith)
      ]
    ]
  ]

two_bytes :
    (p rest : Bytes)
    → length p ≡ 2
    → AreBytes (p ++ rest)
    → (uint16 p < 65536) × (p ++ rest ≡ be16 (uint16 p) ++ rest)
two_bytes [] rest l h = absurd (omega arith)
two_bytes (x ∷ []) rest l h = absurd (omega arith)
two_bytes (x ∷ y ∷ []) rest l h =
    let hi : x ≡ (x * 256 + y) / 256 % 256 = omega arith in
    let lo : y ≡ (x * 256 + y) % 256 = omega arith in
    (omega arith, ap₂ (λ (a b : ℕ). a ∷ b ∷ rest) hi lo)
two_bytes (x ∷ y ∷ z ∷ p) rest l h = absurd (omega arith)

read_port_ok :
    (a : Bytes) (c c' : Conn) {host : Bytes} {port : ℕ}
    → AreBytes c.incoming
    → ◌>>=◌ {B = Bytes × ℕ} (read_full 2) (λ p. pure (a, uint16 p)) c ≡ (ok (host, port), c')
    → (a ≡ host) × (port < 65536) × (c.incoming ≡ be16 port ++ c'.incoming)
read_port_ok a c c' {host} {port} h e =
    let (p, d, r, f) = bind-ok (read_full 2) (λ p. pure (a, uint16 p)) c e in
    go p d (read_full_ok 2 c d r) f
  where
    go :
        (p : Bytes) (d : Conn)
        → (length p ≡ 2) × (c.incoming ≡ p ++ d.incoming) × (d ≡ record c { incoming = d.incoming })
        → ◌≡◌ {A = Outcome (Bytes × ℕ) × Conn} (ok (a, uint16 p), d) (ok (host, port), c')
        → (a ≡ host) × (port < 65536) × (c.incoming ≡ be16 port ++ c'.incoming)
    go p d (l, i, s) f =
        let (small, same) = two_bytes p d.incoming l (subst AreBytes i h) in
        let num : uint16 p ≡ port = ground arith in
        let left : d.incoming ≡ c'.incoming = ground arith in
        (
          ground arith,
          subst (λ (n : ℕ). n < 65536) num small,
          i ∙ same ∙ ap₂ (λ (n : ℕ) (r : Bytes). be16 n ++ r) num left,
        )

module _ (t : IpText) where
  join_parts :
      (w : WireAddr) (atyp port : ℕ) (xs ys zs us : Bytes)
      → xs ≡ atyp ∷ ys
      → atyp ∷ ys ≡ encode w ++ zs
      → zs ≡ be16 port ++ us
      → xs ≡ encode w ++ (be16 port ++ us)
  join_parts w atyp port xs ys zs us p q r = p ∙ q ∙ ap (◌++◌ (encode w)) r

  -- Whatever is read as an address was one on the wire, in front of the bytes that stay.
  pub read_addr_ok :
      (c c' : Conn) {host : Bytes} {port : ℕ}
      → AreBytes c.incoming
      → read_addr t c ≡ (ok (host, port), c')
      → (w : WireAddr) × IsWire w
        × (host ≡ host_of t w)
        × (port < 65536)
        × (c.incoming ≡ encode w ++ (be16 port ++ c'.incoming))
  unfolding read_addr
  read_addr_ok c c' {host} {port} h e =
      let (atyp, c₁, r₁, e₁) = bind-ok read_byte _ c e in
      let (a, c₂, r₂, e₂) = bind-ok (read_host t atyp) _ c₁ e₁ in
      let (i₁, s₁) = read_byte_ok c c₁ r₁ in
      let (w, v, same, i₂) = read_host_ok t atyp c₁ c₂ (subst AreBytes i₁ h).1 r₂ in
      let left = All-append_right IsByte (encode w) c₂.incoming (subst AreBytes (i₁ ∙ i₂) h) in
      let (b, small, i₃) = read_port_ok a c₂ c' left e₂ in
      (
        w,
        v,
        sym b ∙ same,
        small,
        join_parts w atyp port c.incoming c₁.incoming c₂.incoming c'.incoming i₁ i₂ i₃,
      )
