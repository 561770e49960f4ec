-- ===== src/Relay.antt =====
-- transport.go: the two relays of a pair of connections, and what Transport makes of their reports.
-- A relay is the one reader of one connection and the one writer of the other, so that each has a
-- state of its own; the relays take their steps in any order.
pub mod Invariant
pub mod Reports
pub mod Progress
use wirez.Prelude.{
  ℕ, ◌+◌, ◌<◌, ◌≤◌, ◌≡◌, ◌||◌, Bool, true, false, Option, none, some, List, [], ◌∷◌, ◌++◌, Bytes,
  length, if◌then◌else◌,
}
use wirez.Throw.{Error, eof}

-- relayBufferSize.
abbrev pub buffer_size : ℕ
buffer_size = 65536

-- What relay(w, r, errc) works on: the bytes that r still has to read, how many of its reads still
-- give neither a byte nor an error, as udpFlow.Read does for an empty datagram, and how its reading
-- ends, what was written to w, whether w has a CloseWrite that works, and whether it was called. `done` is set
-- when the relay has reported.
pub record Way : Type 0 where
  pub unread : Bytes
  pub blanks : ℕ
  pub ending : Error
  pub sent : Bytes
  pub half_closes : Bool
  pub shut : Bool
  pub done : Bool

abbrev pub is_eof : Error → Bool
is_eof eof = true
is_eof _ = false

-- What is reported when all of r was copied: nil if the half-close worked, io.EOF otherwise.
abbrev pub eof_report : Bool → Option Error
eof_report true = none
eof_report false = some eof

-- One round of io.CopyBuffer: a read of at most a buffer, written in full, or a read that gives
-- nothing, after which nothing is written and the loop goes on.
pub data Copy (x : Way) : Way → Type 0 where
  moves :
      (p rest : Bytes)
      → x.done ≡ false
      → x.unread ≡ p ++ rest
      → 0 < length p
      → length p ≤ buffer_size
      → Copy x (record x { unread = rest; sent = x.sent ++ p })
  reads_nothing : (n : ℕ) → x.done ≡ false → x.blanks ≡ n + 1 → Copy x (record x { blanks = n })

-- The end of relay, with what it sends to errc. Any write may fail, after a part of what was read.
pub data Report (x : Way) : Option Error → Way → Type 0 where
  write_fails :
      (p lost rest : Bytes) (e : Error)
      → x.done ≡ false
      → x.unread ≡ p ++ (lost ++ rest)
      → 0 < length (p ++ lost)
      → length (p ++ lost) ≤ buffer_size
      → Report x (some e) (record x { unread = rest; sent = x.sent ++ p; done = true })
  read_fails :
      x.done ≡ false
      → x.unread ≡ []
      → x.blanks ≡ 0
      → is_eof x.ending ≡ false
      → Report x (some x.ending) (record x { done = true })
  read_ends :
      x.done ≡ false
      → x.unread ≡ []
      → x.blanks ≡ 0
      → is_eof x.ending ≡ true
      → Report x (eof_report x.half_closes) (record x { shut = x.half_closes; done = true })

-- The two relays and the channel between them and Transport.
pub record Pair : Type 0 where
  pub one : Way
  pub two : Way
  pub errc : List (Option Error)

pub data Step (s : Pair) : Pair → Type 0 where
  copies_one : {x : Way} → Copy s.one x → Step s (record s { one = x })
  copies_two : {x : Way} → Copy s.two x → Step s (record s { two = x })
  reports_one :
      {r : Option Error} {x : Way}
      → Report s.one r x
      → Step s (record s { one = x; errc = s.errc ++ r ∷ [] })
  reports_two :
      {r : Option Error} {x : Way}
      → Report s.two r x
      → Step s (record s { two = x; errc = s.errc ++ r ∷ [] })

pub data Steps : ℕ → Pair → Pair → Type 0 where
  stop : {s : Pair} → Steps 0 s s
  more : {n m : ℕ} {s t u : Pair} → Step s t → Steps n t u → m ≡ n + 1 → Steps m s u

-- `timed_out` is errors.As(err, &terr) && terr.Timeout().
module _ (timed_out : Error → Bool) where
  -- The error that Transport returns.
  abbrev pub settled : Option Error → Option Error
  settled none = none
  settled (some e) = if is_eof e || timed_out e then none else some e

  -- Transport, from what has arrived on errc; `none` while it waits.
  unfoldable pub transport : List (Option Error) → Option (Option Error)
  transport [] = none
  transport (some e ∷ rs) = some (settled (some e))
  transport (none ∷ []) = none
  transport (none ∷ r ∷ rs) = some (settled r)
