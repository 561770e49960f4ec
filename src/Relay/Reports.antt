-- ===== src/Relay/Reports.antt =====
-- About Transport of transport.go: the reports of the two relays, and what they stand for.
use mathlib.Core.Path.{subst}
use wirez.Relay.Invariant.{IsFaithful, start-IsFaithful, Copy-IsFaithful, Report-IsFaithful}
use wirez.Prelude.{
  ℕ, ◌≡◌, ◌⊎◌, inl, inr, refl, sym, ap, ◌∙◌, Bool, true, false, Option, none, List, [], ◌∷◌, ◌++◌,
  append-nil,
}
use wirez.Relay.{
  Way, Copy, moves, reads_nothing, Report, write_fails, read_fails, read_ends, Pair, Step,
  copies_one, copies_two, reports_one, reports_two, transport, Steps, stop, more, eof_report,
}
use wirez.Throw.{Error}

-- A relay that has ended: nothing is left unsaid where it reported nil.
pub record Ended (z x : Way) (r : Option Error) : Type 0 where
  pub is_done : x.done ≡ true
  pub complete : r ≡ none → (x.sent ≡ z.sent ++ z.unread) × (x.shut ≡ true)

Report-Ended : (z x y : Way) {r : Option Error} → Report x r y → IsFaithful z x → Ended z y r
Report-Ended z x _ (write_fails p lost rest e going u l b) v = record {
  is_done = refl;
  complete = λ h. absurd (cc);
}
Report-Ended z x _ (read_fails going u b e) v = record {
  is_done = refl;
  complete = λ h. absurd (cc);
}
Report-Ended z x _ (read_ends going u b e) v = record {
  is_done = refl;
  complete = λ h. (whole, shut x.half_closes h);
}
  where
    shut : (b : Bool) → eof_report b ≡ none → b ≡ true
    shut true h = refl
    shut false h = absurd (cc)

    whole : x.sent ≡ z.sent ++ z.unread
    whole =
        let all : z.unread ≡ v.copied = v.read ∙ rw (v.losing going, u) (append-nil v.copied) in
        v.written ∙ ap (◌++◌ z.sent) (sym all)

-- Who has reported what, in which order.
pub data Reports (w z x y : Way) : List (Option Error) → Type 0 where
  nothing : x.done ≡ false → y.done ≡ false → Reports w z x y []
  by_one : (r : Option Error) → Ended w x r → y.done ≡ false → Reports w z x y (r ∷ [])
  by_two : (r : Option Error) → x.done ≡ false → Ended z y r → Reports w z x y (r ∷ [])
  one_first : (r s : Option Error) → Ended w x r → Ended z y s → Reports w z x y (r ∷ s ∷ [])
  two_first : (r s : Option Error) → Ended w x r → Ended z y s → Reports w z x y (s ∷ r ∷ [])

-- What holds of a pair that began as `s`.
pub record IsRelayed (s t : Pair) : Type 0 where
  pub one : IsFaithful s.one t.one
  pub two : IsFaithful s.two t.two
  pub reports : Reports s.one s.two t.one t.two t.errc

pub record IsFresh (s : Pair) : Type 0 where
  pub one : s.one.done ≡ false
  pub two : s.two.done ≡ false
  pub errc : s.errc ≡ []

pub Copy-going : (x y : Way) → Copy x y → (x.done ≡ false) × (y.done ≡ false)
Copy-going x _ (moves p rest going e l b) = (going, going)
Copy-going x _ (reads_nothing n going e) = (going, going)

pub Report-going : (x y : Way) {r : Option Error} → Report x r y → x.done ≡ false
Report-going x _ (write_fails p lost rest e going u l b) = going
Report-going x _ (read_fails going u b e) = going
Report-going x _ (read_ends going u b e) = going

module _ (w z : Way) where
  copied_one :
      (x x' y : Way) (c : List (Option Error))
      → x.done ≡ false
      → x'.done ≡ false
      → Reports w z x y c
      → Reports w z x' y c
  copied_one x x' y _ g g' (nothing a b) = nothing g' b
  copied_one x x' y _ g g' (by_one r a b) = absurd (cc (g, a.is_done))
  copied_one x x' y _ g g' (by_two r a b) = by_two r g' b
  copied_one x x' y _ g g' (one_first r s a b) = absurd (cc (g, a.is_done))
  copied_one x x' y _ g g' (two_first r s a b) = absurd (cc (g, a.is_done))

  copied_two :
      (x y y' : Way) (c : List (Option Error))
      → y.done ≡ false
      → y'.done ≡ false
      → Reports w z x y c
      → Reports w z x y' c
  copied_two x y y' _ g g' (nothing a b) = nothing a g'
  copied_two x y y' _ g g' (by_one r a b) = by_one r a g'
  copied_two x y y' _ g g' (by_two r a b) = absurd (cc (g, b.is_done))
  copied_two x y y' _ g g' (one_first r s a b) = absurd (cc (g, b.is_done))
  copied_two x y y' _ g g' (two_first r s a b) = absurd (cc (g, b.is_done))

  reported_one :
      (x x' y : Way) (c : List (Option Error)) (q : Option Error)
      → x.done ≡ false
      → Ended w x' q
      → Reports w z x y c
      → Reports w z x' y (c ++ q ∷ [])
  reported_one x x' y _ q g e (nothing a b) = by_one q e b
  reported_one x x' y _ q g e (by_one r a b) = absurd (cc (g, a.is_done))
  reported_one x x' y _ q g e (by_two r a b) = two_first q r e b
  reported_one x x' y _ q g e (one_first r s a b) = absurd (cc (g, a.is_done))
  reported_one x x' y _ q g e (two_first r s a b) = absurd (cc (g, a.is_done))

  reported_two :
      (x y y' : Way) (c : List (Option Error)) (q : Option Error)
      → y.done ≡ false
      → Ended z y' q
      → Reports w z x y c
      → Reports w z x y' (c ++ q ∷ [])
  reported_two x y y' _ q g e (nothing a b) = by_two q a e
  reported_two x y y' _ q g e (by_one r a b) = one_first r q a e
  reported_two x y y' _ q g e (by_two r a b) = absurd (cc (g, b.is_done))
  reported_two x y y' _ q g e (one_first r s a b) = absurd (cc (g, b.is_done))
  reported_two x y y' _ q g e (two_first r s a b) = absurd (cc (g, b.is_done))

pub Step-IsRelayed : (s t u : Pair) → Step t u → IsRelayed s t → IsRelayed s u
Step-IsRelayed s t _ (copies_one {x = x} c) v =
    let (g, g') = Copy-going t.one x c in
    record {
      one = Copy-IsFaithful s.one t.one x c v.one;
      two = v.two;
      reports = copied_one s.one s.two t.one x t.two t.errc g g' v.reports;
    }
Step-IsRelayed s t _ (copies_two {x = x} c) v =
    let (g, g') = Copy-going t.two x c in
    record {
      one = v.one;
      two = Copy-IsFaithful s.two t.two x c v.two;
      reports = copied_two s.one s.two t.one t.two x t.errc g g' v.reports;
    }
Step-IsRelayed s t _ (reports_one {r = r} {x = x} c) v = record {
  one = Report-IsFaithful s.one t.one x c v.one;
  two = v.two;
  reports =
      reported_one s.one s.two t.one x t.two t.errc r (Report-going t.one x c)
        (Report-Ended s.one t.one x c v.one) v.reports;
}
Step-IsRelayed s t _ (reports_two {r = r} {x = x} c) v = record {
  one = v.one;
  two = Report-IsFaithful s.two t.two x c v.two;
  reports =
      reported_two s.one s.two t.one t.two x t.errc r (Report-going t.two x c)
        (Report-Ended s.two t.two x c v.two) v.reports;
}

pub fresh-IsRelayed : (s : Pair) → IsFresh s → IsRelayed s s
fresh-IsRelayed s f = record {
  one = start-IsFaithful s.one f.one;
  two = start-IsFaithful s.two f.two;
  reports = subst (Reports s.one s.two s.one s.two) (sym f.errc) (nothing f.one f.two);
}

run-IsRelayed : (n : ℕ) (s t u : Pair) → Steps n t u → IsRelayed s t → IsRelayed s u
run-IsRelayed _ s t _ stop v = v
run-IsRelayed _ s t u (more {n = n} {t = k} st rest e) v =
    run-IsRelayed n s k u rest (Step-IsRelayed s t k st v)

-- Whatever steps two relays take from their start, in any order, each has written, in order and
-- with nothing in between, what it has read, up to what a failed write left of one read, and the
-- channel holds the reports of those that have ended, each at most once, where nil stands only for
-- a relay that has written all there was and has shut the side it writes to.
pub Steps-IsRelayed : (n : ℕ) (s t : Pair) → IsFresh s → Steps n s t → IsRelayed s t
Steps-IsRelayed n s t f st = run-IsRelayed n s s t st (fresh-IsRelayed s f)

-- If both relays have run from their start and reported nil, each side was sent all that the other
-- one had to read, and was shut behind it.
pub both_delivered :
    (n : ℕ) (s t : Pair)
    → IsFresh s
    → Steps n s t
    → t.errc ≡ none ∷ none ∷ []
    → (t.one.sent ≡ s.one.sent ++ s.one.unread)
      × (t.one.shut ≡ true)
      × (t.two.sent ≡ s.two.sent ++ s.two.unread)
      × (t.two.shut ≡ true)
both_delivered n s t f st e = go t.errc e (Steps-IsRelayed n s t f st).reports
  where
    go :
        (c : List (Option Error))
        → c ≡ none ∷ none ∷ []
        → Reports s.one s.two t.one t.two c
        → (t.one.sent ≡ s.one.sent ++ s.one.unread)
          × (t.one.shut ≡ true)
          × (t.two.sent ≡ s.two.sent ++ s.two.unread)
          × (t.two.shut ≡ true)
    go _ q (nothing a b) = absurd (cc)
    go _ q (by_one r a b) = absurd (cc)
    go _ q (by_two r a b) = absurd (cc)
    go _ q (one_first r w a b) =
        let (x, x') = a.complete (cc) in let (y, y') = b.complete (cc) in (x, x', y, y')
    go _ q (two_first r w a b) =
        let (x, x') = a.complete (cc) in let (y, y') = b.complete (cc) in (x, x', y, y')

-- After a half-close Transport goes on waiting, the direction that ended has been delivered in full,
-- and the other relay is still running.
pub half_closed :
    (timed_out : Error → Bool) (n : ℕ) (s t : Pair)
    → IsFresh s
    → Steps n s t
    → t.errc ≡ none ∷ []
    → (transport timed_out t.errc ≡ none)
      × (((t.one.sent ≡ s.one.sent ++ s.one.unread) × (t.one.shut ≡ true) × (t.two.done ≡ false))
          ⊎ ((t.two.sent ≡ s.two.sent ++ s.two.unread)
              × (t.two.shut ≡ true)
              × (t.one.done ≡ false)))
unfolding transport
half_closed timed_out n s t f st e = (rw e refl, go t.errc e (Steps-IsRelayed n s t f st).reports)
  where
    go :
        (c : List (Option Error))
        → c ≡ none ∷ []
        → Reports s.one s.two t.one t.two c
        → ((t.one.sent ≡ s.one.sent ++ s.one.unread) × (t.one.shut ≡ true) × (t.two.done ≡ false))
          ⊎ ((t.two.sent ≡ s.two.sent ++ s.two.unread) × (t.two.shut ≡ true) × (t.one.done ≡ false))
    go _ q (nothing a b) = absurd (cc)
    go _ q (by_one r a b) = let (x, x') = a.complete (cc) in inl (x, x', b)
    go _ q (by_two r a b) = let (x, x') = b.complete (cc) in inr (x, x', a)
    go _ q (one_first r w a b) = absurd (cc)
    go _ q (two_first r w a b) = absurd (cc)
