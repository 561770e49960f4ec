-- ===== src/Dns/Server/Laws.antt =====
-- About handleDNSStream of resolver.go.
use wirez.Conn.{Conn, set_deadline, write, read_full}
use wirez.Conn.Laws.{read_full_ok, write-open, set_deadline-open, bind-ok}
use wirez.Dns.Server.{Served, written, answered, asked, armed, stream_loop}
use wirez.Dns.Stream.{read_dns_message, write_dns_message, frame, read_dns_message-frame}
use wirez.Dns.Upstreams.{Upstreams}
use wirez.Prelude.{
  ℕ, zero, suc, ◌+◌, ◌<◌, ◌≤◌, ◌≡◌, refl, sym, ap, ◌∙◌, false, Option, none, some, List, [], ◌∷◌,
  ◌++◌, arith, append_assoc, append-nil, Bytes, length, length-append, All,
}
use wirez.Socks.Wire.{uint16}
use wirez.Throw.{Outcome, ok, throw, panic}

-- A sequence of messages on the stream.
abbrev pub frames : List Bytes → Bytes
frames [] = []
frames (m ∷ ms) = frame m ++ frames ms

module _ (answer : Upstreams → Bytes → Outcome Bytes × Upstreams) (idle : ℕ → ℕ) where
  -- The answers to a sequence of queries, each from the upstreams that the one before it left.
  pub data Answered : Upstreams → List Bytes → List Bytes → Upstreams → Type 0 where
    done : {u : Upstreams} → Answered u [] [] u
    next :
        {u v w : Upstreams} {q r : Bytes} {qs rs : List Bytes}
        → answer u q ≡ (ok r, v)
        → Answered v qs rs w
        → Answered u (q ∷ qs) (r ∷ rs) w

  -- One round.
  round_answers :
      (fuel k : ℕ) (u v : Upstreams) (c : Conn) (q r rest : Bytes)
      → c.closed ≡ false
      → c.write_error ≡ none
      → length q < 65536
      → answer u q ≡ (ok r, v)
      → stream_loop answer idle (suc fuel) k u (record c { incoming = frame q ++ rest })
        ≡ stream_loop answer idle fuel
            (suc k)
            v
            (record c { incoming = rest; sent = c.sent ++ frame r; deadline = some (idle k) })
  unfolding stream_loop write_dns_message
  round_answers fuel k u v c q r rest h e n a =
      let timed = record c { deadline = some (idle k) } in
      rw
        (
          set_deadline-open (some (idle k)) (record c { incoming = frame q ++ rest }) h,
          read_dns_message-frame timed q rest h n,
          a,
          write-open (frame r) (record timed { incoming = rest }) h e,
        )
        refl

  -- The rounds after the last query: the client has closed its side or gone idle.
  last_round :
      (fuel k : ℕ) (u : Upstreams) (c : Conn)
      → c.closed ≡ false
      → stream_loop answer idle (suc fuel) k u (record c { incoming = [] })
        ≡ some (ok tt, record c { incoming = []; deadline = some (idle k) }, u)
  unfolding stream_loop read_dns_message read_full
  last_round fuel k u c h =
      rw (set_deadline-open (some (idle k)) (record c { incoming = [] }) h) (simp h refl)

  -- Over an open connection that takes what is written, a client that sends queries, none longer
  -- than its length field can say, and then nothing more, gets the answer to each in order, as long
  -- as each is answered, and the handler then ends with no error, with one round more than there
  -- are queries.
  pub stream_loop_answers :
      (fuel k : ℕ) (u w : Upstreams) (c : Conn) (qs rs : List Bytes)
      → c.closed ≡ false
      → c.write_error ≡ none
      → All (λ q. length q < 65536) qs
      → Answered u qs rs w
      → length qs < fuel
      → stream_loop answer idle fuel k u (record c { incoming = frames qs })
        ≡ some (
          ok tt,
          record c {
            incoming = [];
            sent = c.sent ++ frames rs;
            deadline = some (idle (k + length qs));
          },
          w,
        )
  stream_loop_answers zero k u w c qs rs h e s a l = absurd (omega arith)
  stream_loop_answers (suc fuel) k u _ c _ _ h e s done l =
      let here : k ≡ k + 0 = omega arith in
      last_round fuel k u c h ∙ rw (append-nil c.sent, sym here) refl
  stream_loop_answers (suc fuel) k u w c _ _ h e s
        (next {v = v} {q = q} {r = r} {qs = qs} {rs = rs} x a) l =
      let after = record c { sent = c.sent ++ frame r; deadline = some (idle k) } in
      let later : suc k + length qs ≡ k + suc (length qs) = omega arith in
      round_answers fuel k u v c q r (frames qs) h e s.0 x
      ∙ stream_loop_answers fuel (suc k) v w after qs rs h e s.1 a (omega arith)
      ∙ rw (append_assoc c.sent (frame r) (frames rs), later) refl

-- A message that was read took at least its length field.
read_dns_message_shorter :
    (c d : Conn) {q : Bytes}
    → read_dns_message c ≡ (ok q, d)
    → length d.incoming + 2 ≤ length c.incoming
unfolding read_dns_message
read_dns_message_shorter c d e =
    let (len, m, r, f) = bind-ok (read_full 2) _ c e in
    let (l, i, t) = read_full_ok 2 c m r in
    let (l', i', t') = read_full_ok (uint16 len) m d f in
    let first : length c.incoming ≡ length len + length m.incoming =
      ap length i ∙ length-append len m.incoming in
    let second : length m.incoming ≡ length _ + length d.incoming =
      ap length i' ∙ length-append _ d.incoming in
    omega (arith, first, second, l)

write_incoming : (b : Bytes) (c : Conn) → (write b c).1.incoming ≡ c.incoming
unfolding write
write_incoming b c = ground arith

set_deadline_incoming : (t : Option ℕ) (c : Conn) → (set_deadline t c).1.incoming ≡ c.incoming
unfolding set_deadline
set_deadline_incoming t c = ground arith

-- The handler came to its end.
abbrev pub Ends : Option Served → Type 0
Ends r = (x : Served) × (r ≡ some x)

module _ (answer : Upstreams → Bytes → Outcome Bytes × Upstreams) (idle : ℕ → ℕ) where
  module _ (rest : Upstreams → Conn → Option Served) (bound : ℕ)
      (ih : (u : Upstreams) (c : Conn) → length c.incoming < bound → Ends (rest u c)) where
    written-Ends :
        (u : Upstreams) (r : Outcome (Unit {0}) × Conn)
        → length r.1.incoming < bound
        → Ends (written answer idle rest u r)
    written-Ends u (ok x, c) l = ih u c l
    written-Ends u (throw e, c) l = ((throw e, c, u), refl)
    written-Ends u (panic p, c) l = ((panic p, c, u), refl)

    answered-Ends :
        (c : Conn) (r : Outcome Bytes × Upstreams)
        → length c.incoming < bound
        → Ends (answered answer idle rest c r)
    unfolding write_dns_message
    answered-Ends c (ok resp, u) l =
        written-Ends u (write (frame resp) c)
          (omega (arith, ap length (write_incoming (frame resp) c)))
    answered-Ends c (throw e, u) l = ((throw e, c, u), refl)
    answered-Ends c (panic p, u) l = ((panic p, c, u), refl)

    asked-Ends :
        (u : Upstreams) (r : Outcome Bytes × Conn)
        → ((q : Bytes) → r.0 ≡ ok q → length r.1.incoming < bound)
        → Ends (asked answer idle rest u r)
    asked-Ends u (ok q, c) l = answered-Ends c (answer u q) (l q refl)
    asked-Ends u (throw e, c) l = ((ok tt, c, u), refl)
    asked-Ends u (panic p, c) l = ((panic p, c, u), refl)

    armed-Ends :
        (u : Upstreams) (r : Outcome (Unit {0}) × Conn)
        → length r.1.incoming < suc bound
        → Ends (armed answer idle rest u r)
    armed-Ends u (ok x, c) l = asked-Ends u (read_dns_message c) (λ q e.
        let read : read_dns_message c ≡ (ok q, (read_dns_message c).1) =
          ap (λ (o : Outcome Bytes). (o, (read_dns_message c).1)) e in
        omega (arith, read_dns_message_shorter c (read_dns_message c).1 {q = q} read))
    armed-Ends u (throw e, c) l = ((throw e, c, u), refl)
    armed-Ends u (panic p, c) l = ((panic p, c, u), refl)

  -- With more rounds than its client sends bytes the handler ends, whatever the client sends and
  -- the answers are: a round that goes on has taken two bytes at least of what the client sends.
  pub stream_loop-Ends :
      (fuel k : ℕ) (u : Upstreams) (c : Conn)
      → length c.incoming < fuel
      → Ends (stream_loop answer idle fuel k u c)
  unfolding stream_loop
  stream_loop-Ends zero k u c l = absurd (omega arith)
  stream_loop-Ends (suc fuel) k u c l =
      armed-Ends (stream_loop answer idle fuel (suc k)) fuel (stream_loop-Ends fuel (suc k)) u
        (set_deadline (some (idle k)) c)
        (omega (arith, ap length (set_deadline_incoming (some (idle k)) c)))
