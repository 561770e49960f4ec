-- ===== src/Stack/Echo.antt =====
-- setICMPHandler and replyEcho. The accessors of an ICMPv4 header and its checksum are netstack's.
pub mod Laws
use wirez.Prelude.{
  ℕ, ◌||◌, not, Bool, true, false, Option, none, some, List, [], ◌∷◌, ◌++◌, Bytes, length, take,
  ltb, ◌==◌, if◌then◌else◌,
}
use wirez.Stack.Filter.{Header}
use wirez.Throw.{Error, Outcome, ok, throw, panic, throw_if}

pub record Accessors : Type 0 where
  pub set_type : ℕ → Bytes → Bytes
  pub set_checksum : ℕ → Bytes → Bytes
  pub header_checksum : Bytes → ℕ → ℕ
  pub payload_checksum : Bytes → ℕ

pub data EchoEvent : Type 0 where
  writes_packet : Bytes → Bytes → EchoEvent
  releases_packet releases_route : EchoEvent
  logs_failure : Error → EchoEvent

-- SetType of an echo reply and SetChecksum, on a copy of the request's header.
unfoldable pub reply_header : Header → Accessors → Bytes → Bytes → Bytes
reply_header k a request payload =
    let copied = take k.icmp4_minimum request in
    let cleared = a.set_checksum 0 (a.set_type k.icmp4_echo_reply copied) in
    a.set_checksum (a.header_checksum cleared (a.payload_checksum payload)) cleared

-- replyEcho, for the errors of FindRoute and of WritePacket. The deferred calls run last.
unfoldable pub reply_echo :
    Header
    → Accessors
    → Option Error
    → Option Error
    → Bytes
    → Bytes
    → Outcome (Unit {0}) × List EchoEvent
unfolding reply_header
reply_echo k a (some e) written request payload = (throw e, [])
reply_echo k a none written request payload = (
  throw_if written,
  writes_packet (reply_header k a request payload) payload ∷ releases_packet ∷ releases_route ∷ [],
)

abbrev pub caught : Outcome (Unit {0}) × List EchoEvent → Outcome (Unit {0}) × List EchoEvent
caught (ok x, es) = (ok x, es)
caught (throw e, es) = (ok tt, es ++ logs_failure e ∷ [])
caught (panic p, es) = (panic p, es)

-- The callback of setICMPHandler: whether it took the packet, and what it did.
unfoldable pub icmp_handler :
    Header
    → Accessors
    → Option Error
    → Option Error
    → Bytes
    → Bytes
    → Bool × (Outcome (Unit {0}) × List EchoEvent)
unfolding reply_echo
icmp_handler k a route written request payload =
    if ltb (length request) k.icmp4_minimum || not (k.icmp4_type request == k.icmp4_echo)
    then (false, (ok tt, []))
    else (true, caught (reply_echo k a route written request payload))
