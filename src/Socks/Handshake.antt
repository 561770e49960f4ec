-- ===== src/Socks/Handshake.antt =====
-- About socks5Handshake and socks5Authenticate of socks5.go: what a proxy may answer.
use mathlib.Core.Path.{ap₂}
use wirez.Conn.{Conn, ensure}
use wirez.Conn.Laws.{read_full_exact, write-open, bind-ok, ensure_ok, exchange_ok}
use wirez.Prelude.{
  ℕ, ◌≤◌, ◌≡◌, refl, ◌∙◌, ap, inl, inr, false, ◌||◌, Option, none, some, [], ◌∷◌, ◌++◌, append-nil,
  arith, Bytes, length, get_or, ltb, le→ltb, ◌==◌, ==_iff, Bool-cases,
}
use wirez.Socks.Session.{
  Userinfo, pass_of, greeting, auth_request, authenticate, by_password, chosen, handshake,
}
use wirez.Throw.{Error, Outcome, ok, throw}

abbrev pub Fits : Userinfo → Type 0
Fits u = (length u.username ≤ 255) × (length (pass_of u) ≤ 255)

-- What a proxy may send in the negotiation, and what the client sends on top of its greeting: the
-- choice of no authentication, or of the password, which must be configured, and its acceptance.
pub data Negotiates (auth : Option Userinfo) (reply extra : Bytes) : Type 0 where
  no_auth : reply ≡ 5 ∷ 0 ∷ [] → extra ≡ [] → Negotiates auth reply extra
  by_pass :
      (u : Userinfo) (version : ℕ)
      → auth ≡ some u
      → Fits u
      → reply ≡ 5 ∷ 2 ∷ version ∷ 0 ∷ []
      → extra ≡ auth_request u.username (pass_of u)
      → Negotiates auth reply extra

module _ (c : Conn) (open' : c.closed ≡ false) (writable : c.write_error ≡ none) where
  authenticate-accepted :
      (u : Userinfo) (version : ℕ) (rest : Bytes)
      → Fits u
      → authenticate u (record c { incoming = version ∷ 0 ∷ rest }) ≡ (
        ok tt,
        record c { incoming = rest; sent = c.sent ++ auth_request u.username (pass_of u) },
      )
  unfolding authenticate
  authenticate-accepted u version rest f =
      let req = auth_request u.username (pass_of u) in
      rw
        (
          le→ltb 255 (length u.username) f.0,
          le→ltb 255 (length (pass_of u)) f.1,
          write-open req (record c { incoming = version ∷ 0 ∷ rest }) open' writable,
          read_full_exact 2 (record c { sent = c.sent ++ req }) (version ∷ 0 ∷ []) rest open' refl,
        )
        refl

module _ (c : Conn) (open' : c.closed ≡ false) (writable : c.write_error ≡ none) where
  -- A proxy that negotiates within the protocol is accepted, whatever it sends afterwards, and has
  -- been sent the greeting and, if it asked for it, the password.
  pub handshake-accepts :
      {auth : Option Userinfo} (reply extra rest : Bytes)
      → Negotiates auth reply extra
      → handshake auth (record c { incoming = reply ++ rest })
        ≡ (ok tt, record c { incoming = rest; sent = (c.sent ++ greeting auth) ++ extra })
  unfolding handshake
  handshake-accepts {auth} reply extra rest (no_auth r x) =
      rw
        (
          r,
          x,
          append-nil (c.sent ++ greeting auth),
          write-open (greeting auth) (record c { incoming = 5 ∷ 0 ∷ rest }) open' writable,
          read_full_exact 2 (record c { sent = c.sent ++ greeting auth }) (5 ∷ 0 ∷ []) rest open'
              refl,
        )
        refl
  handshake-accepts {auth} reply extra rest (by_pass u version a f r x) =
      let greeted = record c { sent = c.sent ++ greeting (some u) } in
      rw
        (
          r,
          x,
          a,
          write-open (greeting (some u)) (record c { incoming = 5 ∷ 2 ∷ version ∷ 0 ∷ rest }) open'
              writable,
          read_full_exact 2 greeted (5 ∷ 2 ∷ []) (version ∷ 0 ∷ rest) open' refl,
        )
        (authenticate-accepted greeted open' writable u version rest f)

two_of : (p : Bytes) → length p ≡ 2 → p ≡ get_or p 0 0 ∷ get_or p 1 0 ∷ []
two_of [] l = absurd (omega arith)
two_of (x ∷ []) l = absurd (omega arith)
two_of (x ∷ y ∷ []) l = refl
two_of (x ∷ y ∷ z ∷ p) l = absurd (omega arith)

-- The two bytes of an answer, in front of what stays.
answered :
    (req p : Bytes) (c d c' : Conn)
    → length p ≡ 2
    → c.incoming ≡ p ++ d.incoming
    → d ≡ record c { incoming = d.incoming; sent = c.sent ++ req }
    → c' ≡ d
    → (c.incoming ≡ get_or p 0 0 ∷ get_or p 1 0 ∷ c'.incoming)
      × (c' ≡ record c { incoming = c'.incoming; sent = c.sent ++ req })
answered req [] c d c' l i s e = absurd (omega arith)
answered req (x ∷ []) c d c' l i s e = absurd (omega arith)
answered req (x ∷ y ∷ []) c d c' l i s e = ground arith
answered req (x ∷ y ∷ z ∷ p) c d c' l i s e = absurd (omega arith)

short_enough :
    (u : Userinfo) → (ltb 255 (length u.username) || ltb 255 (length (pass_of u))) ≡ false → Fits u
short_enough u h = (ground arith, ground arith)

ok-ne-throw :
    {A : Type 0} {x : Error} {a : A} {c d : Conn}
    → ◌≡◌ {A = Outcome A × Conn} (throw x, c) (ok a, d)
    → ⊥
ok-ne-throw {A} e = cc (ap (λ (p : Outcome A × Conn). p.0) e)

authenticate_ok :
    (u : Userinfo) (c c' : Conn) {r : Unit {0}}
    → authenticate u c ≡ (ok r, c')
    → Fits u
      × (version : ℕ) × (c.incoming ≡ version ∷ 0 ∷ c'.incoming)
      × (c' ≡ record c {
        incoming = c'.incoming;
        sent = c.sent ++ auth_request u.username (pass_of u);
      })
unfolding authenticate
authenticate_ok u c c' {r} e =
    elim (Bool-cases (ltb 255 (length u.username) || ltb 255 (length (pass_of u)))) [
      | inl long ↦ absurd (ok-ne-throw (rw long at e))
      | inr short ↦
          let req = auth_request u.username (pass_of u) in
          let (p, d, l, i, s, f) = exchange_ok req 2 _ c c' (rw short at e) in
          let (zero', last) = ensure_ok (get_or p 1 0 == 0) _ d c' f in
          let (j, t) = answered req p c d c' l i s last in
          (
            short_enough u short,
            get_or p 0 0,
            j ∙ ap (λ (k : ℕ). get_or p 0 0 ∷ k ∷ c'.incoming) ((==_iff (get_or p 1 0) 0).0 zero'),
            t,
          )
    ]

-- What `chosen` accepts: the method is one of the two, and the second was answered.
chosen_ok :
    (auth : Option Userinfo) (method : ℕ) (c c' : Conn) {r : Unit {0}}
    → chosen auth method c ≡ (ok r, c')
    → (reply extra : Bytes) × Negotiates auth (5 ∷ method ∷ reply) extra
      × (c.incoming ≡ reply ++ c'.incoming)
      × (c' ≡ record c { incoming = c'.incoming; sent = c.sent ++ extra })
unfolding chosen
chosen_ok auth method c c' e = elim (Bool-cases (method == 0)) [
  | inl k ↦ (
    [],
    [],
    no_auth (ap (λ (m : ℕ). 5 ∷ m ∷ []) ((==_iff method 0).0 k)) refl,
    ground arith,
    ground (arith, append-nil c.sent),
  )
  | inr k ↦ elim (Bool-cases (method == 2)) [
    | inr k2 ↦ absurd (ok-ne-throw (rw (k, k2) at e))
    | inl k2 ↦ by_choice auth ((==_iff method 2).0 k2) (rw (k, k2) at e)
  ]
]
  where
    by_choice :
        (a : Option Userinfo)
        → method ≡ 2
        → by_password a c ≡ (ok tt, c')
        → (reply extra : Bytes) × Negotiates a (5 ∷ method ∷ reply) extra
          × (c.incoming ≡ reply ++ c'.incoming)
          × (c' ≡ record c { incoming = c'.incoming; sent = c.sent ++ extra })
    by_choice none m f = absurd (ok-ne-throw f)
    by_choice (some u) m f =
        let (fits, version, i, t) = authenticate_ok u c c' f in
        let req = auth_request u.username (pass_of u) in
        (
          version ∷ 0 ∷ [],
          req,
          by_pass u version refl fits (ap (λ (k : ℕ). 5 ∷ k ∷ version ∷ 0 ∷ []) m) refl,
          i,
          t,
        )

chained :
    (c d e : Conn) (a b : Bytes)
    → d ≡ record c { incoming = d.incoming; sent = c.sent ++ a }
    → e ≡ record d { incoming = e.incoming; sent = d.sent ++ b }
    → e ≡ record c { incoming = e.incoming; sent = (c.sent ++ a) ++ b }
chained c d e a b p q = ground arith

-- A handshake that succeeds was an exchange within the protocol: the proxy chose no authentication,
-- or the configured password and accepted it, exactly those bytes were read, and the credentials
-- were sent only if the proxy asked for them.
pub handshake_ok :
    (auth : Option Userinfo) (c c' : Conn) {r : Unit {0}}
    → handshake auth c ≡ (ok r, c')
    → (reply extra : Bytes) × Negotiates auth reply extra
      × (c.incoming ≡ reply ++ c'.incoming)
      × (c' ≡ record c { incoming = c'.incoming; sent = (c.sent ++ greeting auth) ++ extra })
unfolding handshake
handshake_ok auth c c' e =
    let (p, d, l, i, s, f) = exchange_ok (greeting auth) 2 _ c c' e in
    let (x, d', g, f₂) =
      bind-ok (ensure (get_or p 0 0 == 5) _) (λ _. chosen auth (get_or p 1 0)) d f in
    let (five, same) = ensure_ok (get_or p 0 0 == 5) _ d d' g in
    let (reply, extra, n, j, t) = chosen_ok auth (get_or p 1 0) d' c' f₂ in
    let (i', s') = answered (greeting auth) p c d d' l i s same in
    (
      5 ∷ get_or p 1 0 ∷ reply,
      extra,
      n,
      i'
          ∙ ap₂ (λ (a : ℕ) (rest : Bytes). a ∷ get_or p 1 0 ∷ rest)
              ((==_iff (get_or p 0 0) 5).0 five) j,
      chained c d' c' (greeting auth) extra s' t,
    )
