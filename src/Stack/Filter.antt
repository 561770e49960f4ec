-- ===== src/Stack/Filter.antt =====
-- icmpEchoMatcher and defaultIPTables.
pub mod Laws
use wirez.Prelude.{
  ℕ, suc, ◌≡◌, ◌&&◌, ◌||◌, Bool, true, false, Option, none, some, List, [], ◌∷◌, Bytes, length,
  get_elem?, ltb, ◌==◌, if◌then◌else◌,
}

-- The package header: protocol numbers, and what it says of an ICMP message.
pub record Header : Type 0 where
  pub tcp : ℕ
  pub udp : ℕ
  pub icmp4 : ℕ
  pub icmp6 : ℕ
  pub icmp4_minimum : ℕ
  pub icmp6_minimum : ℕ
  pub icmp4_echo : ℕ
  pub icmp4_echo_reply : ℕ
  pub icmp6_echo_request : ℕ
  pub icmp6_echo_reply : ℕ
  pub icmp4_type : Bytes → ℕ
  pub icmp6_type : Bytes → ℕ

-- What a rule sees of a packet.
pub record Packet : Type 0 where
  pub protocol : ℕ
  pub transport_header : Bytes

-- A message of n bytes with type t: matches, hotdrop.
abbrev pub echo_type : ℕ → ℕ → ℕ → ℕ → ℕ → Bool × Bool
echo_type minimum n t request reply =
    if ltb n minimum then (false, false) else (t == request || t == reply, false)

-- icmpEchoMatcher with its field v6.
unfoldable pub match_echo : Header → Bool → Bytes → Bool × Bool
match_echo k true h =
    echo_type k.icmp6_minimum (length h) (k.icmp6_type h) k.icmp6_echo_request k.icmp6_echo_reply
match_echo k false h =
    echo_type k.icmp4_minimum (length h) (k.icmp4_type h) k.icmp4_echo k.icmp4_echo_reply

pub data Target : Type 0 where
  accepted dropped : Target

-- stack.Rule: the protocol of its IPHeaderFilter, where it checks one, and its matcher.
pub record Rule : Type 0 where
  pub protocol : Option ℕ
  pub matcher : Option Bool
  pub target : Target

pub data Hook : Type 0 where
  prerouting input_hook forward_hook output_hook postrouting : Hook

pub record FilterTable : Type 0 where
  pub rules : List Rule
  pub builtin_chains : Hook → ℕ
  pub underflows : Hook → ℕ

abbrev pub icmp_of : Header → Bool → ℕ
icmp_of k true = k.icmp6
icmp_of k false = k.icmp4

abbrev pub protocol_rule : ℕ → Rule
protocol_rule p = record { protocol = some p; matcher = none; target = accepted }

abbrev pub echo_rule : Header → Bool → Rule
echo_rule k v6 = record { protocol = some (icmp_of k v6); matcher = some v6; target = accepted }

abbrev pub drop_rule : Rule
drop_rule = record { protocol = none; matcher = none; target = dropped }

abbrev pub accept_rule : Rule
accept_rule = record { protocol = none; matcher = none; target = accepted }

abbrev pub filter_rules : Header → Bool → List Rule
filter_rules k v6 =
    protocol_rule k.tcp ∷ protocol_rule k.udp ∷ echo_rule k v6 ∷ drop_rule ∷ accept_rule ∷ []

-- TCPAllowRuleNum, DropRuleNum and AllowRuleNum are 0, 3 and 4.
abbrev pub chain_start : Hook → ℕ
chain_start postrouting = 4
chain_start _ = 0

unfoldable pub filter_table : Header → Bool → FilterTable
filter_table k v6 = record {
  rules = filter_rules k v6;
  builtin_chains = chain_start;
  underflows = λ _. 3;
}

-- The filter tables of the two families, of which each is replaced.
abbrev pub replace_table : FilterTable → Bool → (Bool → FilterTable) → Bool → FilterTable
replace_table t true tables true = t
replace_table t false tables false = t
replace_table t v6 tables family = tables family

unfoldable pub default_ip_tables : Header → (Bool → FilterTable) → Bool → FilterTable
default_ip_tables k tables =
    replace_table (filter_table k true) true (replace_table (filter_table k false) false tables)

-- When a rule is taken for a packet.
abbrev pub has_protocol : Option ℕ → ℕ → Bool
has_protocol none p = true
has_protocol (some q) p = p == q

abbrev pub is_matched : Header → Option Bool → Bytes → Bool
is_matched k none h = true
is_matched k (some v6) h = (match_echo k v6 h).0

abbrev pub applies : Header → Rule → Packet → Bool
applies k r p = has_protocol r.protocol p.protocol && is_matched k r.matcher p.transport_header

-- How netstack goes through a table from a rule on: the first rule that applies decides.
pub record Traversal (k : Header) : Type 0 where
  pub verdict : List Rule → ℕ → Packet → Target
  pub hits :
      (rs : List Rule) (i : ℕ) (r : Rule) (p : Packet)
      → get_elem? rs i ≡ some r
      → applies k r p ≡ true
      → verdict rs i p ≡ r.target
  pub passes :
      (rs : List Rule) (i : ℕ) (r : Rule) (p : Packet)
      → get_elem? rs i ≡ some r
      → applies k r p ≡ false
      → verdict rs i p ≡ verdict rs (suc i) p
