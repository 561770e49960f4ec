-- ===== src/Tests/Relay.antt =====
-- A pair of relays that copy one message each, one of them behind a read that gives nothing, and see
-- both sides end.
use wirez.Prelude.{
  ◌+◌, ◌≤◌, ◌≡◌, refl, Bool, true, false, none, [], ◌∷◌, Bytes, bytes, length, arith,
}
use wirez.Relay.{
  Way, moves, reads_nothing, read_ends, Pair, Step, copies_one, copies_two, reports_one,
  reports_two, Steps, stop, more, transport,
}
use wirez.Relay.Progress.{relay_bound, relay_goes_on}
use wirez.Relay.Reports.{IsRelayed, IsFresh, Steps-IsRelayed}
use wirez.Throw.{Error, eof, deadline_exceeded}

abbrev way : Bytes → Way
way unread = record {
  unread = unread;
  blanks = 0;
  ending = eof;
  sent = [];
  half_closes = true;
  shut = false;
  done = false;
}

abbrev start : Pair
start = record { one = record (way (bytes "hi")) { blanks = 1 }; two = way (bytes "ho"); errc = [] }

abbrev copied : Pair
copied = record start { one = record (way []) { sent = bytes "hi" } }

abbrev half : Pair
half = record copied {
  one = record (way []) { sent = bytes "hi"; shut = true; done = true };
  errc = none ∷ [];
}

abbrev answered : Pair
answered = record half { two = record (way []) { sent = bytes "ho" } }

abbrev whole : Pair
whole = record answered {
  two = record (way []) { sent = bytes "ho"; shut = true; done = true };
  errc = none ∷ none ∷ [];
}

start-IsFresh : IsFresh start
start-IsFresh = record { one = refl; two = refl; errc = refl }

to_half : Steps 3 start half
to_half =
    more (copies_one (reads_nothing 0 refl refl))
      (more (copies_one (moves (bytes "hi") [] refl refl (omega arith) (omega arith)))
        (more (reports_one (read_ends refl refl refl refl)) stop refl) refl)
      refl

to_end : Steps 2 half whole
to_end =
    more (copies_two (moves (bytes "ho") [] refl refl (omega arith) (omega arith)))
      (more (reports_two (read_ends refl refl refl refl)) stop refl) refl

to_whole : Steps 5 start whole
to_whole =
    more (copies_one (reads_nothing 0 refl refl))
      (more (copies_one (moves (bytes "hi") [] refl refl (omega arith) (omega arith)))
        (more (reports_one (read_ends refl refl refl refl)) to_end refl) refl)
      refl

abbrev timed_out : Error → Bool
timed_out deadline_exceeded = true
timed_out _ = false

Steps-IsRelayed_example : IsRelayed start half
Steps-IsRelayed_example = Steps-IsRelayed 3 start half start-IsFresh to_half

relay_bound_example : 5 ≤ (length (bytes "hi") + 1) + (length (bytes "ho") + 0) + 2
relay_bound_example = relay_bound 5 start whole start-IsFresh to_whole

still_waiting : transport timed_out half.errc ≡ none
unfolding transport
still_waiting = refl

relay_goes_on_example : (u : Pair) × Step half u
relay_goes_on_example = relay_goes_on timed_out 3 start half start-IsFresh to_half still_waiting
