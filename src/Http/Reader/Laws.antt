-- ===== src/Http/Reader/Laws.antt =====
-- About reading lines, and what is left to read.
use wirez.Conn.{Conn}
use wirez.Http.Reader.{Reader, unread, trim_cr, read_line, header_loop, read_mime_header}
use wirez.Prelude.{
  drop-append_left, take-append_left, index-append_left, ◌≢◌, index-lt_length, ℕ, zero, suc, ◌<◌,
  ◌≤◌, ◌≡◌, refl, sym, ap, ◌∙◌, inl, inr, Bool, true, false, some, List, [], ◌∷◌, ◌++◌, arith,
  append_assoc, Bytes, length, length-append, take, drop, take-length, drop-suc-length,
  take-append-drop, has, has-append, index, index-append, All, Option-cases,
}
use wirez.Throw.{ok}

-- A line as it is sent.
abbrev pub line : Bytes → Bytes
line s = s ++ b'\r' ∷ b'\n' ∷ []

trim_cr-append : (s : Bytes) → trim_cr (s ++ b'\r' ∷ []) ≡ s
unfolding trim_cr
trim_cr-append [] = refl
trim_cr-append (c ∷ []) = refl
trim_cr-append (c ∷ d ∷ s) = ap (◌∷◌ c) (trim_cr-append (d ∷ s))

abbrev pub lines : List Bytes → Bytes
lines [] = []
lines (l ∷ ls) = line l ++ lines ls

-- Reading a line takes it off what is unread, wherever the buffer ends, and leaves the rest of the
-- connection as it was.
pub record Reads (r s : Reader) (rest : Bytes) : Type 0 where
  pub left : unread s ≡ rest
  pub same : s.conn ≡ record r.conn { incoming = s.conn.incoming }

-- The lines of a header: none is empty, none has a newline, and the package takes each of them.
abbrev pub IsField : (Bytes → Bool) → Bytes → Type 0
IsField field s = (s ≢ []) × (has b'\n' s ≡ false) × (field s ≡ true)

length-lines : (ls : List Bytes) (rest : Bytes) → length ls ≤ length (lines ls ++ rest)
length-lines [] rest = omega arith
length-lines (l ∷ ls) rest =
    let n = length-append (lines ls) rest in
    let e = length-append (line l) (lines ls) in
    let o = length-append (lines (l ∷ ls)) rest in
    let i = length-lines ls rest in
    let k = length-append l (b'\r' ∷ b'\n' ∷ []) in omega (arith, n, e, o, i, k)

pub Reads-trans : {r q s : Reader} {m n : Bytes} → Reads r q m → Reads q s n → Reads r s n
Reads-trans {r} {q} {s} v w = record {
  left = w.left;
  same = w.same ∙ ap (λ (k : Conn). record k { incoming = s.conn.incoming }) v.same;
}

module _ (ahead : Bytes → ℕ) where
  read_line_at :
      (r : Reader) (i : ℕ)
      → r.conn.closed ≡ false
      → index b'\n' (unread r) ≡ some i
      → (s : Reader) × (read_line ahead r ≡ (ok (trim_cr (take i (unread r))), s))
        × Reads r s (drop (suc i) (unread r))
  unfolding read_line
  read_line_at r i h e = elim (Option-cases (index b'\n' r.ahead)) [
    | inl none' ↦
        let rest = drop (suc i) (unread r) in
        let n = ahead rest in
        (
          record { ahead = take n rest; conn = record r.conn { incoming = drop n rest } },
          rw none' (rw h (rw e refl)),
          record { left = take-append-drop n rest; same = refl },
        )
    | inr (j, found) ↦
        let low = index-lt_length b'\n' r.ahead j found in
        let there = index-append_left b'\n' r.ahead r.conn.incoming j found in
        let same : j ≡ i = ground (arith, there, e) in
        let front : take i (unread r) ≡ take j r.ahead =
          rw (sym same) (take-append_left j r.ahead r.conn.incoming (omega (arith, low))) in
        let back : drop (suc i) (unread r) ≡ drop (suc j) r.ahead ++ r.conn.incoming =
          rw (sym same) (drop-append_left (suc j) r.ahead r.conn.incoming (omega (arith, low))) in
        (
          record r { ahead = drop (suc j) r.ahead },
          rw found (rw front refl),
          record { left = sym back; same = refl },
        )
  ]

  -- A line with no newline of its own, and its end.
  pub read_line-line :
      (r : Reader) (s rest : Bytes)
      → r.conn.closed ≡ false
      → has b'\n' s ≡ false
      → unread r ≡ line s ++ rest
      → (r' : Reader) × (read_line ahead r ≡ (ok s, r')) × Reads r r' rest
  read_line-line r s rest h n e =
      let cr = s ++ b'\r' ∷ [] in
      let whole : unread r ≡ cr ++ b'\n' ∷ rest =
        e
        ∙ append_assoc s (b'\r' ∷ b'\n' ∷ []) rest
        ∙ sym (append_assoc s (b'\r' ∷ []) (b'\n' ∷ rest)) in
      let clean : has b'\n' cr ≡ false = rw (has-append b'\n' s (b'\r' ∷ []), n) refl in
      let at : index b'\n' (unread r) ≡ some (length cr) =
        rw whole (index-append b'\n' cr rest clean) in
      let (r', read, v) = read_line_at r (length cr) h at in
      let text : trim_cr (take (length cr) (unread r)) ≡ s =
        rw (whole, take-length cr (b'\n' ∷ rest)) (trim_cr-append s) in
      let behind : drop (suc (length cr)) (unread r) ≡ rest =
        rw whole (drop-suc-length cr b'\n' rest) in
      (
        r',
        read ∙ ap (λ (t : Bytes). (ok t, r')) text,
        record { left = v.left ∙ behind; same = v.same },
      )

  module _ (field : Bytes → Bool) where
    header_loop-lines :
        (fuel : ℕ) (r : Reader) (ls : List Bytes) (rest : Bytes)
        → r.conn.closed ≡ false
        → All (IsField field) ls
        → unread r ≡ lines ls ++ (line [] ++ rest)
        → length ls < fuel
        → (r' : Reader) × (header_loop ahead field fuel r ≡ (ok tt, r')) × Reads r r' rest
    unfolding header_loop
    header_loop-lines zero r ls rest h v e l = absurd (omega arith)
    header_loop-lines (suc fuel) r [] rest h v e l =
        let (r', read, w) = read_line-line r [] rest h refl e in (r', rw read refl, w)
    header_loop-lines (suc fuel) r ([] ∷ ls) rest h v e l = absurd (v.0.0 refl)
    header_loop-lines (suc fuel) r ((c ∷ s) ∷ ls) rest h v e l =
        let (r', read, w) =
          read_line-line r (c ∷ s) (lines ls ++ (line [] ++ rest)) h v.0.1
            (e ∙ append_assoc (line (c ∷ s)) (lines ls) (line [] ++ rest)) in
        let (q, looped, w') =
          header_loop-lines fuel r' ls rest (ap (λ (k : Conn). k.closed) w.same ∙ h) v.1 w.left
            (omega arith) in
        (q, rw read (rw v.0.2 looped), Reads-trans w w')

    pub read_mime_header-lines :
        (r : Reader) (ls : List Bytes) (rest : Bytes)
        → r.conn.closed ≡ false
        → All (IsField field) ls
        → unread r ≡ lines ls ++ (line [] ++ rest)
        → (r' : Reader) × (read_mime_header ahead field r ≡ (ok tt, r')) × Reads r r' rest
    read_mime_header-lines r ls rest h v e =
        let n = length-lines ls (line [] ++ rest) in
        let m = ap length e in
        header_loop-lines (suc (length (unread r))) r ls rest h v e (omega (arith, n, m))
