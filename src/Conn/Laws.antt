-- ===== src/Conn/Laws.antt =====
-- About reading, writing and closing a connection.
use wirez.Conn.{
  Conn, Io, read_full, write, set_deadline, close_on_throw, unwind, continue, ensure, ◌>>=◌,
}
use mathlib.Core.Path.{subst}
use wirez.Prelude.{
  ℕ, zero, suc, ◌≡◌, refl, ap, ◌⊎◌, inl, inr, Bool, true, false, Option, none, [], ◌∷◌, ◌++◌, arith,
  Bytes, length, length-append, take-length, drop-length, leb, Bool-cases, take-append-drop,
  length-take, leb→le,
}
use wirez.Throw.{Error, Outcome, ok, throw, panic}

-- The bytes that have arrived are returned, and those behind them stay.
pub read_full-append :
    (c : Conn) (xs ys : Bytes)
    → c.closed ≡ false
    → read_full (length xs) (record c { incoming = xs ++ ys }) ≡ (ok xs, record c { incoming = ys })
unfolding read_full
read_full-append c [] ys h = refl
read_full-append c (x ∷ xs) ys h =
    let enough : leb (suc (length xs)) (length ((x ∷ xs) ++ ys)) ≡ true =
      ground (arith, length-append xs ys) in
    rw (h, enough, take-length xs ys, drop-length xs ys) refl

-- The same for a read of as many bytes, said by a number.
pub read_full_exact :
    (n : ℕ) (c : Conn) (xs ys : Bytes)
    → c.closed ≡ false
    → length xs ≡ n
    → read_full n (record c { incoming = xs ++ ys }) ≡ (ok xs, record c { incoming = ys })
read_full_exact n c xs ys h e =
    subst
      (λ k. read_full k (record c { incoming = xs ++ ys }) ≡ (ok xs, record c { incoming = ys })) e
      (read_full-append c xs ys h)

-- A read that succeeds took a prefix of that length and changed nothing else.
pub read_full_ok :
    (n : ℕ) (c c' : Conn) {b : Bytes}
    → read_full n c ≡ (ok b, c')
    → (length b ≡ n) × (c.incoming ≡ b ++ c'.incoming) × (c' ≡ record c { incoming = c'.incoming })
unfolding read_full
read_full_ok zero c c' e = ground arith
read_full_ok (suc n) c c' {b} e = elim (Bool-cases c.closed) [
  | inl h ↦ absurd (ground arith)
  | inr h ↦ elim (Bool-cases (leb (suc n) (length c.incoming))) [
    | inl l ↦
        ground (
          arith,
          length-take (suc n) c.incoming (leb→le _ _ l),
          take-append-drop (suc n) c.incoming,
        )
    | inr l ↦ absurd (ground arith)
  ]
]

-- A write on an open connection that can be written goes behind what was sent.
pub write-open :
    (b : Bytes) (c : Conn)
    → c.closed ≡ false
    → c.write_error ≡ none
    → write b c ≡ (ok tt, record c { sent = c.sent ++ b })
unfolding write
write-open b c h w = rw h (rw w refl)

pub write_ok :
    (b : Bytes) (c c' : Conn) {r : Unit {0}}
    → write b c ≡ (ok r, c')
    → (c.closed ≡ false) × (c.write_error ≡ none) × (c' ≡ record c { sent = c.sent ++ b })
unfolding write
write_ok b c c' e = ground arith

pub set_deadline-open :
    (t : Option ℕ) (c : Conn)
    → c.closed ≡ false
    → set_deadline t c ≡ (ok tt, record c { deadline = t })
unfolding set_deadline
set_deadline-open t c h = rw h refl

-- A connection that `close_on_throw` lets through unclosed is one whose work succeeded.
pub close_on_throw_cases {ℓ} :
    {A : Type ℓ} (m : Io A) (c : Conn)
    → ((a : A) × (m c ≡ (ok a, (m c).1)) × (close_on_throw m c ≡ m c))
      ⊎ ((close_on_throw m c).1.closed ≡ true)
close_on_throw_cases {A} m c = go (m c)
  where
    go :
        (r : Outcome A × Conn)
        → ((a : A) × (r ≡ (ok a, r.1)) × (unwind r.0 r.1 ≡ r)) ⊎ ((unwind r.0 r.1).1.closed ≡ true)
    go (ok a, d) = inl (a, refl, refl)
    go (throw e, d) = inr refl
    go (panic p, d) = inr refl

-- A sequence succeeds only if both its parts do.
pub bind-ok {ℓ κ} :
    {A : Type ℓ} {B : Type κ} (m : Io A) (f : A → Io B) (c : Conn) {b : B} {c' : Conn}
    → (m >>= f) c ≡ (ok b, c')
    → (a : A) × (d : Conn) × (m c ≡ (ok a, d)) × (f a d ≡ (ok b, c'))
bind-ok {A} {B} m f c {b} {c'} h = go (m c) h
  where
    go :
        (r : Outcome A × Conn)
        → continue r.0 r.1 f ≡ (ok b, c')
        → (a : A) × (d : Conn) × (r ≡ (ok a, d)) × (f a d ≡ (ok b, c'))
    go (ok a, d) e = (a, d, refl, e)
    go (throw x, d) e = absurd (cc (ap (λ (p : Outcome B × Conn). p.0) e))
    go (panic p, d) e = absurd (cc (ap (λ (p : Outcome B × Conn). p.0) e))

pub ensure_ok :
    (b : Bool) (x : Error) (c c' : Conn) {r : Unit {0}}
    → ensure b x c ≡ (ok r, c')
    → (b ≡ true) × (c' ≡ c)
ensure_ok true x c c' e = (refl, ground arith)
ensure_ok false x c c' e = absurd (cc (ap (λ (p : Outcome (Unit {0}) × Conn). p.0) e))

joined :
    (c d e : Conn) (req p : Bytes)
    → d ≡ record c { sent = c.sent ++ req }
    → d.incoming ≡ p ++ e.incoming
    → e ≡ record d { incoming = e.incoming }
    → (c.incoming ≡ p ++ e.incoming)
      × (e ≡ record c { incoming = e.incoming; sent = c.sent ++ req })
joined c d e req p s i t = ground arith

-- A request that is answered: what was sent, and which bytes of the answer were taken.
pub exchange_ok {ℓ} :
    {B : Type ℓ} (req : Bytes) (n : ℕ) (k : Bytes → Io B) (c c' : Conn) {b : B}
    → ◌>>=◌ (write req) (λ _. read_full n >>= k) c ≡ (ok b, c')
    → (p : Bytes) × (d : Conn) × (length p ≡ n)
      × (c.incoming ≡ p ++ d.incoming)
      × (d ≡ record c { incoming = d.incoming; sent = c.sent ++ req })
      × (k p d ≡ (ok b, c'))
exchange_ok req n k c c' h =
    let (x, d, w, h₁) = bind-ok (write req) (λ _. read_full n >>= k) c h in
    let (p, e, r, h₂) = bind-ok (read_full n) k d h₁ in
    let (open', writable, s) = write_ok req c d w in
    let (l, i, t) = read_full_ok n d e r in
    let (j, u) = joined c d e req p s i t in (p, e, l, j, u, h₂)
