-- ===== src/Relay/Progress.antt =====
-- About the relays of transport.go: the steps that are left to them.
use wirez.Relay.{
  Way, Copy, moves, reads_nothing, Report, write_fails, read_fails, read_ends, Pair, Step,
  copies_one, copies_two, reports_one, reports_two, Steps, stop, more, is_eof, transport,
}
use wirez.Relay.Reports.{
  Reports, nothing, by_one, by_two, one_first, two_first, IsFresh, Steps-IsRelayed,
}
use wirez.Prelude.{
  ℕ, zero, suc, ◌+◌, ◌<◌, ◌≤◌, ◌≡◌, ◌≢◌, ◌⊎◌, inl, inr, refl, ap, Bool, false, Option, none, some,
  List, [], ◌∷◌, arith, Bytes, length, length-append, Bool-cases, if◌then◌else◌,
}
use wirez.Throw.{Error}

-- What a relay has still to do: its bytes, its reads that give nothing, and its report.
abbrev pub work : Way → ℕ
work x = if x.done then 0 else length x.unread + x.blanks + 1

Copy-work : (x y : Way) → Copy x y → work y < work x
Copy-work x _ (moves p rest going e l b) = ground (arith, ap length e, length-append p rest)
Copy-work x _ (reads_nothing n going e) = ground arith

Report-work : (x y : Way) {r : Option Error} → Report x r y → work y < work x
Report-work x _ (write_fails p lost rest e going u l b) = ground arith
Report-work x _ (read_fails going u b e) = ground arith
Report-work x _ (read_ends going u b e) = ground arith

Step-work : (s t : Pair) → Step s t → work t.one + work t.two < work s.one + work s.two
Step-work s _ (copies_one {x = x} c) = omega (arith, Copy-work s.one x c)
Step-work s _ (copies_two {x = x} c) = omega (arith, Copy-work s.two x c)
Step-work s _ (reports_one {x = x} c) = omega (arith, Report-work s.one x c)
Step-work s _ (reports_two {x = x} c) = omega (arith, Report-work s.two x c)

run_bound :
    (n : ℕ) (s t : Pair) → Steps n s t → n + (work t.one + work t.two) ≤ work s.one + work s.two
run_bound _ s _ stop = omega arith
run_bound _ s t (more {n = n} {t = u} st rest e) =
    omega (arith, Step-work s u st, run_bound n u t rest, e)

-- A relay that is running can go on: it copies, or it reports.
can_go :
    (x : Way)
    → x.done ≡ false
    → ((y : Way) × Copy x y) ⊎ ((r : Option Error) × (y : Way) × Report x r y)
can_go x going = go x.unread refl
  where
    go :
        (u : Bytes)
        → x.unread ≡ u
        → ((y : Way) × Copy x y) ⊎ ((r : Option Error) × (y : Way) × Report x r y)
    go [] e = at_end x.blanks refl
      where
        at_end :
            (n : ℕ)
            → x.blanks ≡ n
            → ((y : Way) × Copy x y) ⊎ ((r : Option Error) × (y : Way) × Report x r y)
        at_end zero b = elim (Bool-cases (is_eof x.ending)) [
          | inl f ↦ inr (_, _, read_ends going e b f)
          | inr f ↦ inr (_, _, read_fails going e b f)
        ]
        at_end (suc n) b = inl (_, reads_nothing n going (omega arith))
    go (b ∷ bs) e = inl (_, moves (b ∷ []) bs going e (omega arith) (omega arith))

-- From their start two relays take at most as many steps as there are bytes to read on both sides
-- and reads that give nothing, and two more, in whatever order they take them.
pub relay_bound :
    (n : ℕ) (s t : Pair)
    → IsFresh s
    → Steps n s t
    → n ≤ (length s.one.unread + s.one.blanks) + (length s.two.unread + s.two.blanks) + 2
relay_bound n s t f st =
    let bound = run_bound n s t st in
    let first : work s.one ≡ length s.one.unread + s.one.blanks + 1 = rw f.one refl in
    let second : work s.two ≡ length s.two.unread + s.two.blanks + 1 = rw f.two refl in
    omega (arith, bound, first, second)

two_reports :
    (timed_out : Error → Bool) (r w : Option Error) → transport timed_out (r ∷ w ∷ []) ≢ none
unfolding transport
two_reports timed_out none w e = cc
two_reports timed_out (some x) w e = cc

-- From the start on, as long as Transport has not returned, one of the two relays can take a step.
pub relay_goes_on :
    (timed_out : Error → Bool) (n : ℕ) (s t : Pair)
    → IsFresh s
    → Steps n s t
    → transport timed_out t.errc ≡ none
    → (u : Pair) × Step t u
relay_goes_on timed_out n s t f st waiting = go t.errc waiting (Steps-IsRelayed n s t f st).reports
  where
    one : t.one.done ≡ false → (u : Pair) × Step t u
    one g = elim (can_go t.one g) [
      | inl (y, c) ↦ (_, copies_one c)
      | inr (r, y, c) ↦ (_, reports_one c)
    ]

    two : t.two.done ≡ false → (u : Pair) × Step t u
    two g = elim (can_go t.two g) [
      | inl (y, c) ↦ (_, copies_two c)
      | inr (r, y, c) ↦ (_, reports_two c)
    ]

    go :
        (c : List (Option Error))
        → transport timed_out c ≡ none
        → Reports s.one s.two t.one t.two c
        → (u : Pair) × Step t u
    go _ q (nothing a b) = one a
    go _ q (by_one r a b) = two b
    go _ q (by_two r a b) = one a
    go _ q (one_first r w a b) = absurd (two_reports timed_out r w q)
    go _ q (two_first r w a b) = absurd (two_reports timed_out w r q)
