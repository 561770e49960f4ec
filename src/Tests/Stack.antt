-- ===== src/Tests/Stack.antt =====
-- The stack's filter, its handlers and its ICMP responder at small parameters.
use wirez.Prelude.{
  ℕ, zero, suc, ◌≤◌, ◌≡◌, refl, ap, ◌∙◌, true, false, Option, none, some, List, [], ◌∷◌, ◌-◌, ◌/◌,
  ◌%◌, Bytes, bytes, length, drop, get_elem?, get_or, arith, if◌then◌else◌,
}
use wirez.Stack.Echo.{Accessors, icmp_handler}
use wirez.Stack.Echo.Laws.{AccessorLaws, packets, icmp_handler-replies}
use wirez.Stack.Filter.{Header, Packet, Target, dropped, Rule, applies, Traversal}
use wirez.Stack.Handlers.{EndpointId, Timeouts}
use wirez.Throw.{Error, eof, Result, value, Outcome, ok}

abbrev header : Header
header = record {
  tcp = 6;
  udp = 17;
  icmp4 = 1;
  icmp6 = 58;
  icmp4_minimum = 8;
  icmp6_minimum = 8;
  icmp4_echo = 8;
  icmp4_echo_reply = 0;
  icmp6_echo_request = 128;
  icmp6_echo_reply = 129;
  icmp4_type = λ h. get_or h 0 0;
  icmp6_type = λ h. get_or h 0 0;
}

-- The first rule that applies decides, and a packet that none applies to is dropped.
abbrev decide : List Rule → ℕ → Packet → Target
decide [] i p = dropped
decide (r ∷ rs) (suc i) p = decide rs i p
decide (r ∷ rs) zero p =
    let later = decide rs zero p in if applies header r p then r.target else later

decide_hits :
    (rs : List Rule) (i : ℕ) (r : Rule) (p : Packet)
    → get_elem? rs i ≡ some r
    → applies header r p ≡ true
    → decide rs i p ≡ r.target
decide_hits [] i r p e a = cc e
decide_hits (q ∷ rs) zero r p e a =
    let same : q ≡ r = cc e in
    let a' : applies header q p ≡ true = ap (λ x. applies header x p) same ∙ a in
    rw a' (ap (λ (x : Rule). x.target) same)
decide_hits (q ∷ rs) (suc i) r p e a = decide_hits rs i r p e a

decide_passes :
    (rs : List Rule) (i : ℕ) (r : Rule) (p : Packet)
    → get_elem? rs i ≡ some r
    → applies header r p ≡ false
    → decide rs i p ≡ decide rs (suc i) p
decide_passes [] i r p e a = refl
decide_passes (q ∷ rs) zero r p e a =
    let same : q ≡ r = cc e in
    let a' : applies header q p ≡ false = ap (λ x. applies header x p) same ∙ a in rw a' refl
decide_passes (q ∷ rs) (suc i) r p e a = decide_passes rs i r p e a

abbrev through : Traversal header
through = record { verdict = decide; hits = decide_hits; passes = decide_passes }

abbrev ping : Packet
ping = record { protocol = 1; transport_header = 8 ∷ 0 ∷ 0 ∷ 0 ∷ 0 ∷ 1 ∷ 0 ∷ 1 ∷ [] }

abbrev id : EndpointId
id = record {
  local_address = bytes "10.1.1.2";
  local_port = 80;
  remote_address = bytes "10.1.1.1";
  remote_port = 4000;
}

abbrev timeouts : Timeouts
timeouts = record { tcp_idle = 60; udp_idle = 15 }

abbrev fails_late : Option ℕ → Option ℕ → Option Error
fails_late a b = some eof

abbrev reached : Bytes → Bytes → Outcome (Result ℕ)
reached network address = ok (value 7)

abbrev put_type : ℕ → Bytes → Bytes
put_type t [] = []
put_type t (a ∷ h) = t ∷ h

abbrev put_checksum : ℕ → Bytes → Bytes
put_checksum c (a ∷ b ∷ x ∷ y ∷ h) = a ∷ b ∷ c / 256 ∷ c % 256 ∷ h
put_checksum c h = h

abbrev accessors : Accessors
accessors = record {
  set_type = put_type;
  set_checksum = put_checksum;
  header_checksum = λ h sum. 65535 - sum;
  payload_checksum = λ p. length p;
}

put_type_first : (h : Bytes) → 8 ≤ length h → get_or (put_type 0 h) 0 0 ≡ 0
put_type_first [] l = absurd (omega (arith, l))
put_type_first (a ∷ h) l = refl

put_checksum_first : (c : ℕ) (h : Bytes) → get_or (put_checksum c h) 0 0 ≡ get_or h 0 0
put_checksum_first c [] = refl
put_checksum_first c (a ∷ []) = refl
put_checksum_first c (a ∷ b ∷ []) = refl
put_checksum_first c (a ∷ b ∷ x ∷ []) = refl
put_checksum_first c (a ∷ b ∷ x ∷ y ∷ h) = refl

put_type_behind : (t : ℕ) (h : Bytes) → drop 4 (put_type t h) ≡ drop 4 h
put_type_behind t [] = refl
put_type_behind t (a ∷ h) = refl

put_checksum_behind : (c : ℕ) (h : Bytes) → drop 4 (put_checksum c h) ≡ drop 4 h
put_checksum_behind c [] = refl
put_checksum_behind c (a ∷ []) = refl
put_checksum_behind c (a ∷ b ∷ []) = refl
put_checksum_behind c (a ∷ b ∷ x ∷ []) = refl
put_checksum_behind c (a ∷ b ∷ x ∷ y ∷ h) = refl

accessors-laws : AccessorLaws header accessors
accessors-laws = record {
  type-set_type = put_type_first;
  type-set_checksum = put_checksum_first;
  behind_type = put_type_behind;
  behind_checksum = put_checksum_behind;
}

icmp_handler-replies_example :
    (h : Bytes) × ((icmp_handler header accessors none none ping.transport_header (bytes "data")).0
      ≡ true)
    × (packets (icmp_handler header accessors none none ping.transport_header (bytes "data")).1.1
        ≡ (h, bytes "data") ∷ [])
    × (get_or h 0 0 ≡ 0)
    × (drop 4 h ≡ 0 ∷ 1 ∷ 0 ∷ 1 ∷ [])
icmp_handler-replies_example =
    icmp_handler-replies header accessors accessors-laws none ping.transport_header (bytes "data")
      (omega arith) refl
