-- ===== src/Conn.antt =====
-- A net.Conn with its peer, as the code that speaks a proxy protocol over it sees it: a state with
-- the bytes that are still to arrive and the bytes written, under explicit state passing. A throw
-- keeps the state that it leaves. Also io.ReadFull and, from throw.go, CloseOnThrow.
pub mod Laws
use wirez.Prelude.{
  ℕ, zero, suc, Bool, true, false, Option, none, some, [], ◌++◌, Bytes, length, take, drop, leb,
  ◌==◌, if◌then◌else◌,
}
use wirez.Throw.{Error, eof, unexpected_eof, net_closed, Outcome, ok, throw, panic}

pub record Conn : Type 0 where
  -- what the peer sends, not read yet, and what a read gives when all of it has been read:
  -- io.EOF, a reset, or the deadline that passes
  pub incoming : Bytes
  pub ending : Error
  -- what was written to the peer, and the error of a write if it fails
  pub sent : Bytes
  pub write_error : Option Error
  pub closed : Bool
  pub deadline : Option ℕ

abbrev pub Io {ℓ} : Type ℓ → Type ℓ
Io A = Conn → Outcome A × Conn

abbrev pub pure {ℓ} : {A : Type ℓ} → A → Io A
pure a c = (ok a, c)

abbrev pub raise {ℓ} : {A : Type ℓ} → Error → Io A
raise e c = (throw e, c)

abbrev pub lift {ℓ} : {A : Type ℓ} → Outcome A → Io A
lift m c = (m, c)

abbrev pub continue {ℓ κ} :
    {A : Type ℓ} {B : Type κ} → Outcome A → Conn → (A → Io B) → Outcome B × Conn
continue (ok a) c f = f a c
continue (throw e) c f = (throw e, c)
continue (panic p) c f = (panic p, c)

infixl 5 ◌>>=◌ ◌>>◌
abbrev pub ◌>>=◌ {ℓ κ} : {A : Type ℓ} {B : Type κ} → Io A → (A → Io B) → Io B
◌>>=◌ m f c = continue (m c).0 (m c).1 f

abbrev pub ◌>>◌ {ℓ} : {B : Type ℓ} → Io (Unit {0}) → Io B → Io B
m >> k = m >>= λ _. k

abbrev pub ensure : Bool → Error → Io (Unit {0})
ensure true e = pure tt
ensure false e = raise e

-- What io.ReadFull makes of a read that ends after some bytes, and after none.
abbrev partial_error : Error → Error
partial_error eof = unexpected_eof
partial_error e = e

abbrev short_error : Bytes → Error → Error
short_error [] e = e
short_error _ e = partial_error e

-- readFull(r, b) with len(b) = n: exactly n bytes, or a throw. For n = 0 nothing is read.
unfoldable pub read_full : ℕ → Io Bytes
read_full zero c = (ok [], c)
read_full (suc n) c =
    if c.closed
    then (throw net_closed, c)
    else if leb (suc n) (length c.incoming)
    then (ok (take (suc n) c.incoming), record c { incoming = drop (suc n) c.incoming })
    else (throw (short_error c.incoming c.ending), record c { incoming = [] })

abbrev write_open : Bytes → Option Error → Io (Unit {0})
write_open b none c = (ok tt, record c { sent = c.sent ++ b })
write_open b (some e) c = (throw e, c)

-- Throw2(conn.Write(b)).
unfoldable pub write : Bytes → Io (Unit {0})
write b c = if c.closed then (throw net_closed, c) else write_open b c.write_error c

-- Throw(conn.SetDeadline(t)); `none` is time.Time{}, which clears it.
unfoldable pub set_deadline : Option ℕ → Io (Unit {0})
set_deadline t c = if c.closed then (throw net_closed, c) else (ok tt, record c { deadline = t })

-- applyDeadline(ctx, conn), where `t` is the context's deadline.
unfoldable pub apply_deadline : Option ℕ → Io (Unit {0})
unfolding set_deadline
apply_deadline none c = (ok tt, c)
apply_deadline (some t) c = set_deadline (some t) c

abbrev pub close : Conn → Conn
close c = record c { closed = true }

-- `defer CloseOnThrow(conn)`: conn is closed when the rest unwinds, and the unwinding goes on.
abbrev pub unwind {ℓ} : {A : Type ℓ} → Outcome A → Conn → Outcome A × Conn
unwind (ok a) c = (ok a, c)
unwind (throw e) c = (throw e, close c)
unwind (panic p) c = (panic p, close c)

abbrev pub close_on_throw {ℓ} : {A : Type ℓ} → Io A → Io A
close_on_throw m c = unwind (m c).0 (m c).1

-- A connection as it stands after the dial.
abbrev pub fresh : Bytes → Conn
fresh incoming = record {
  incoming = incoming;
  ending = eof;
  sent = [];
  write_error = none;
  closed = false;
  deadline = none;
}
