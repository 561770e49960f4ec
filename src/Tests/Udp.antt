-- ===== src/Tests/Udp.antt =====
-- One association with a flow to 1.1.1.1:53, replies that arrive for it, and two sources with slots.
use wirez.Net.Plain.{plain, read_ip}
use wirez.Net.Plain.Laws.{plain-IpTextLaws}
use wirez.Prelude.{
  ℕ, ◌+◌, ◌<◌, ◌≤◌, ◌≡◌, ◌⊎◌, refl, inl, inr, true, false, some, none, List, [], ◌∷◌, ◌++◌, Bytes,
  bytes, length, lookup, insert, equal, arith,
}
use wirez.Socks.Wire.{udp_datagram, parse_udp_datagram}
use wirez.Throw.{ok}
use wirez.Udp.Slots.{Hub, new_hub, begin, Steps, begins, stop, more}
use wirez.Udp.Slots.Stale.{IsStale}
use wirez.Udp.Slots.Race.{left, race, Steps-IsStale}
use wirez.Udp.Association.{
  Association, Op, opens, delivers, closes, shuts, new_association, open_flow, udp_flow_key,
  deliver, update, run,
}
use wirez.Udp.Association.Delivery.{open_flow_found, deliver_reaches}
use wirez.Udp.Association.Reading.{deliver_all, TakesAll, done, next, reads_in_order}
use wirez.Udp.Association.Sound.{IsSound, new_association-IsSound}
use wirez.Udp.Association.Invariant.{run-IsSound}

abbrev one : Bytes
one = bytes "1.1.1.1"

abbrev empty : Association
empty = new_association (bytes "10.1.1.1:4000")

abbrev opened : Association
opened = (open_flow plain one 53 empty).1

abbrev reply : Bytes
reply = 0 ∷ 0 ∷ 0 ∷ 1 ∷ 1 ∷ 1 ∷ 1 ∷ 1 ∷ 0 ∷ 53 ∷ 7 ∷ 8 ∷ []

opened_key : lookup (udp_flow_key plain one 53) opened.flows ≡ some 0
unfolding lookup open_flow wirez.Prelude.insert wirez.Prelude.equal udp_flow_key
    wirez.Net.HostPort.join_host_port read_ip wirez.Net.Decimal.digits_value
    wirez.Net.Plain.write_ip
opened_key = refl

reply_is : udp_datagram plain one 53 (7 ∷ 8 ∷ []) ≡ ok reply
unfolding udp_datagram wirez.Socks.Wire.append_addr wirez.Net.Decimal.digits_value wirez.Net.Ip.to4
reply_is = unfold read_ip in refl

opened_room : length (opened.store 0).queue < 1024
unfolding open_flow
opened_room = omega arith

deliver_reaches_example :
    deliver plain reply opened
    ≡ ok (record opened {
      store =
          update opened.store 0
            (record (opened.store 0) { queue = (opened.store 0).queue ++ (7 ∷ 8 ∷ []) ∷ [] });
    })
deliver_reaches_example =
    deliver_reaches plain plain-IpTextLaws one (7 ∷ 8 ∷ []) reply 53 0 opened (omega arith) reply_is
      (open_flow_found plain one 53 empty refl).1 opened_room

bad_dropped : deliver plain [] opened ≡ ok opened
unfolding deliver parse_udp_datagram
bad_dropped = refl

abbrev life : List Op
life = opens one 53 ∷ delivers reply ∷ opens (bytes "::1") 80 ∷ closes 0 ∷ shuts ∷ closes 1 ∷ []

run-IsSound_example : IsSound (run plain life empty)
run-IsSound_example = run-IsSound plain life empty (new_association-IsSound (bytes "10.1.1.1:4000"))

no_slots : lookup (bytes "s") new_hub.slots ≡ none
unfolding lookup
no_slots = refl

abbrev stale_hub : Hub
stale_hub = left new_hub (bytes "s")

race_example : Steps new_hub stale_hub × IsStale stale_hub (bytes "s") 0 0
race_example = race new_hub (bytes "s") no_slots

other_absent : lookup (bytes "u") stale_hub.slots ≡ none
unfolding lookup insert equal
other_absent = refl

Steps-IsStale_example : IsStale (begin (bytes "u") stale_hub) (bytes "s") 0 0
Steps-IsStale_example =
    Steps-IsStale stale_hub (begin (bytes "u") stale_hub) (bytes "s") 0 0
      (race new_hub (bytes "s") no_slots).0 (more (begins (bytes "u") other_absent) stop)
      (race new_hub (bytes "s") no_slots).1

opened_empty : (opened.store 0).queue ≡ []
unfolding open_flow
opened_empty = refl

reads_in_order_example :
    (b c : Association) × (deliver_all plain (reply ∷ reply ∷ []) opened ≡ ok b)
    × TakesAll 1 0 b ((7 ∷ []) ∷ (7 ∷ []) ∷ []) c
    × ((c.store 0).queue ≡ [])
reads_in_order_example =
    reads_in_order plain plain-IpTextLaws one 53 0 1 opened ((7 ∷ 8 ∷ []) ∷ (7 ∷ 8 ∷ []) ∷ [])
      (reply ∷ reply ∷ []) (omega arith) (next reply_is (next reply_is done))
      (open_flow_found plain one 53 empty refl).1 opened_empty (omega arith)
