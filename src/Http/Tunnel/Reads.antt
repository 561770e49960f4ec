-- ===== src/Http/Tunnel/Reads.antt =====
-- About reads through a tunnel.
use wirez.Http.Reader.{Reader, unread}
use wirez.Http.Tunnel.{read_chunk, read_buffered, tunnel_read}
use wirez.Prelude.{
  if_both, ℕ, suc, ◌≤◌, ◌≡◌, ◌≢◌, refl, sym, ap, ◌∙◌, false, List, [], ◌∷◌, ◌++◌, arith,
  append_assoc, Bytes, length, length-append, take, drop, take-append-drop,
}
use wirez.Throw.{Outcome, ok, throw, panic}

-- What one read does: with nothing left it fails, and otherwise it takes some bytes off the front,
-- one at least, and the connection stays open.
Takes : Reader → Outcome Bytes × Reader → Type 0
Takes r (ok b, r') = (b ≢ []) × (b ++ unread r' ≡ unread r) × (r'.conn.closed ≡ false)
Takes r (throw e, r') = unread r ≡ []
Takes r (panic p, r') = unread r ≡ []

nothing : (s : Bytes) → length s ≤ 0 → s ≡ []
nothing [] l = refl
nothing (c ∷ s) l = absurd (omega (arith, l))

take_some : (n : ℕ) (c : ℕ) (s : Bytes) → take (suc n) (c ∷ s) ≢ []
take_some n c s e = cc

chunk-Takes :
    (n chunk : ℕ) (r : Reader) (all : Bytes)
    → r.conn.closed ≡ false
    → r.ahead ≡ []
    → r.conn.incoming ≡ all
    → Takes r (read_chunk (suc n) (suc chunk) r all)
unfolding Takes
chunk-Takes n chunk r [] h e i = rw (e, i) refl
chunk-Takes n chunk r (c ∷ s) h e i =
    let got = take chunk s in
    let whole : c ∷ (take n got ++ (drop n got ++ drop chunk s)) ≡ r.ahead ++ r.conn.incoming =
      ap (◌∷◌ c) (
        sym (append_assoc (take n got) (drop n got) (drop chunk s))
        ∙ ap (λ x. x ++ drop chunk s) (take-append-drop n got)
        ∙ take-append-drop chunk s)
      ∙ rw (e, i) refl in
    (take_some n c got, whole, h)

read-Takes :
    (n chunk : ℕ) (r : Reader) → r.conn.closed ≡ false → Takes r (tunnel_read (suc n) (suc chunk) r)
unfolding tunnel_read Takes
read-Takes n chunk r h = go r.ahead refl
  where
    go : (a : Bytes) → r.ahead ≡ a → Takes r (read_buffered (suc n) (suc chunk) r a)
    go [] e =
        if_both (Takes r) r.conn.closed (λ t. absurd (cc (sym t ∙ h)))
          (λ f. chunk-Takes n chunk r r.conn.incoming h e refl)
    go (c ∷ s) e =
        let front : take (suc n) r.ahead ≢ [] = rw e (take_some n c s) in
        let whole : take (suc n) r.ahead ++ (drop (suc n) r.ahead ++ r.conn.incoming)
            ≡ r.ahead ++ r.conn.incoming =
          sym (append_assoc (take (suc n) r.ahead) (drop (suc n) r.ahead) r.conn.incoming)
          ∙ ap (λ x. x ++ r.conn.incoming) (take-append-drop (suc n) r.ahead) in
        (front, whole, h)

-- What the client of a tunnel gets by reads of given sizes, up to the first that fails.
abbrev pub add_read : Outcome Bytes × Reader → (Reader → Bytes) → Bytes
add_read (ok b, r) rest = b ++ rest r
add_read (throw e, r) rest = []
add_read (panic p, r) rest = []

abbrev pub read_all : List (ℕ × ℕ) → Reader → Bytes
read_all [] r = []
read_all ((n, chunk) ∷ sizes) r = add_read (tunnel_read (suc n) (suc chunk) r) (read_all sizes)

abbrev Delivered : List (ℕ × ℕ) → Reader → Type 0
Delivered sizes r =
    length (unread r) ≤ length sizes → r.conn.closed ≡ false → read_all sizes r ≡ unread r

add_read_whole :
    (sizes : List (ℕ × ℕ)) (r : Reader) (m : Outcome Bytes × Reader)
    → length (unread r) ≤ suc (length sizes)
    → ((s : Reader) → Delivered sizes s)
    → Takes r m
    → add_read m (read_all sizes) ≡ unread r
unfolding Takes
add_read_whole sizes r (ok [], s) l rest (x, whole, o) = absurd (x refl)
add_read_whole sizes r (ok (c ∷ b), s) l rest (x, whole, o) =
    let n = ap length whole in
    let k = length-append b (unread s) in
    ap (λ y. c ∷ (b ++ y)) (rest s (omega (arith, n, k, l)) o) ∙ whole
add_read_whole sizes r (throw e, s) l rest none_left = sym none_left
add_read_whole sizes r (panic p, s) l rest none_left = sym none_left

-- Over an open connection, reads of any sizes above zero, as many as there are bytes, give all that
-- was unread, in order: first what the reader held, and then what the destination sends.
pub read_all_whole :
    (sizes : List (ℕ × ℕ)) (r : Reader)
    → length (unread r) ≤ length sizes
    → r.conn.closed ≡ false
    → read_all sizes r ≡ unread r
read_all_whole [] r l o = sym (nothing (unread r) l)
read_all_whole ((n, chunk) ∷ sizes) r l o =
    add_read_whole sizes r (tunnel_read (suc n) (suc chunk) r) l (read_all_whole sizes)
      (read-Takes n chunk r o)
