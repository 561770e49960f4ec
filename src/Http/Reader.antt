-- ===== src/Http/Reader.antt =====
-- bufio.Reader under textproto.Reader: lines of a connection, and what was read ahead of them.
-- `ahead` of a fill is how many bytes of what follows the line come with it; `field` says which
-- lines the package takes as part of a header.
pub mod Laws
use wirez.Conn.{Conn}
use wirez.Prelude.{
  ℕ, zero, suc, ◌-◌, Bool, true, false, Option, none, some, [], ◌∷◌, ◌++◌, Bytes, bytes, length,
  take, drop, get_or, index, ◌==◌, if◌then◌else◌,
}
use wirez.Throw.{Error, unexpected_eof, net_closed, message_of, Outcome, ok, throw, panic}

pub record Reader : Type 0 where
  pub ahead : Bytes
  pub conn : Conn

-- All that has not been read yet.
abbrev pub unread : Reader → Bytes
unread r = r.ahead ++ r.conn.incoming

-- A line without the carriage return in front of its newline.
unfoldable pub trim_cr : Bytes → Bytes
trim_cr [] = []
trim_cr (c ∷ []) = if c == b'\r' then [] else c ∷ []
trim_cr (c ∷ d ∷ s) = c ∷ trim_cr (d ∷ s)

module _ (ahead : Bytes → ℕ) where
  -- The newline is behind what is buffered: the line is taken off the connection, with some of what
  -- follows it. With no newline at all the rest is the last line, and with no rest reading fails.
  abbrev pub filled : Reader → Bytes → Option ℕ → Outcome Bytes × Reader
  filled r all (some i) =
      let rest = drop (suc i) all in
      let n = ahead rest in
      (
        ok (trim_cr (take i all)),
        record { ahead = take n rest; conn = record r.conn { incoming = drop n rest } },
      )
  filled r [] none = (throw r.conn.ending, r)
  filled r (c ∷ s) none =
      (ok (c ∷ s), record { ahead = []; conn = record r.conn { incoming = [] } })

  abbrev pub buffered : Reader → Option ℕ → Outcome Bytes × Reader
  buffered r (some i) = (ok (trim_cr (take i r.ahead)), record r { ahead = drop (suc i) r.ahead })
  buffered r none =
      if r.conn.closed then (throw net_closed, r) else filled r (unread r) (index b'\n' (unread r))

  -- textproto's ReadLine.
  unfoldable pub read_line : Reader → Outcome Bytes × Reader
  read_line r = buffered r (index b'\n' r.ahead)

  module _ (field : Bytes → Bool) where
    abbrev pub header_line :
        (Reader → Outcome (Unit {0}) × Reader)
        → Outcome Bytes × Reader
        → Outcome (Unit {0}) × Reader
    header_line rest (ok [], r) = (ok tt, r)
    header_line rest (ok (c ∷ s), r) =
        let later = rest r in
        if field (c ∷ s)
        then later
        else (throw (message_of (bytes "malformed MIME header line") (c ∷ s)), r)
    header_line rest (throw e, r) = (throw e, r)
    header_line rest (panic p, r) = (panic p, r)

    -- ReadMIMEHeader: lines up to an empty one, each judged for itself: whether one continues the
    -- line before it plays no part. Each line takes a byte at least, so that the fuel is one more
    -- than the bytes that are unread.
    unfoldable pub header_loop : ℕ → Reader → Outcome (Unit {0}) × Reader
    header_loop zero r = (throw unexpected_eof, r)
    header_loop (suc fuel) r = header_line (header_loop fuel) (read_line r)

    abbrev pub read_mime_header : Reader → Outcome (Unit {0}) × Reader
    read_mime_header r = header_loop (suc (length (unread r))) r
