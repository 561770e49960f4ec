-- ===== src/Route/Dial/Order.antt =====
-- About localForwardingConnector.DialContext of connect.go: the rule that a destination falls under,
-- and destinations that NAT64 synthesized.
use wirez.Net.HostPort.{split_host_port, join_host_port}
use wirez.Net.Ip.{IpNet, network_number, contains, masked_equal, any_contains, to4, shortest}
use wirez.Net.IpText.{IpText, IpTextLaws}
use wirez.Net.HostPort.Laws.{IsPort}
use wirez.Route.Nat64.Laws.{IsNat64, nat64_unmap-synthesized, nat64_unmap-v4}
use wirez.Prelude.{
  ℕ, ◌++◌, AreBytes, length, ◌≡◌, refl, ap, ◌∙◌, true, false, none, some, List, [], ◌∷◌, Bytes, All,
}
use wirez.Route.Dial.{Rules, tun_refused, match_nets, dial}
use wirez.Route.Mapper.{map_address}
use wirez.Route.Nat64.{nat64_unmap, nat64_map}
use wirez.Throw.{Result, value, failure, ok}

module _ (t : IpText) where
  -- The ways that a destination can take, each with the tests that lead to it.
  pub data Goes (r : Rules) (network address : Bytes) : Type 0 where
    mapped : (to : Bytes) → map_address network address r.nat ≡ some to → Goes r network address
    refused :
        map_address network address r.nat ≡ none
        → match_nets t r.tun address ≡ ok true
        → Goes r network address
    direct :
        (to : Bytes)
        → map_address network address r.nat ≡ none
        → match_nets t r.tun address ≡ ok false
        → match_nets t r.bypass address ≡ ok true
        → nat64_map t r.nat64 address ≡ ok to
        → Goes r network address
    proxied :
        map_address network address r.nat ≡ none
        → match_nets t r.tun address ≡ ok false
        → match_nets t r.bypass address ≡ ok false
        → Goes r network address

  -- What is dialed then.
  abbrev pub outcome {ℓ} :
      {A : Type ℓ} {r : Rules} {network address : Bytes}
      → (Bytes → Bytes → Result A)
      → (Bytes → Bytes → Result A)
      → Goes r network address
      → Result A
  outcome {network = n} d s (mapped to _) = d n to
  outcome {address = a} d s (refused _ _) = failure (tun_refused a)
  outcome {network = n} d s (direct to _ _ _ _) = d n to
  outcome {network = n} {address = a} d s (proxied _ _ _) = s n a

  module _ {ℓ} {A : Type ℓ} (d s : Bytes → Bytes → Result A) (r : Rules)
      (network address : Bytes) where
    -- The destination, unmapped from NAT64, is dialed as the rules say.
    pub dial-outcome :
        (a : Bytes)
        → nat64_unmap t r.nat64 address ≡ ok a
        → (g : Goes r network a) → dial t d s r network address ≡ ok (outcome d s g)
    unfolding dial
    dial-outcome a u (mapped to m) = rw u (rw m refl)
    dial-outcome a u (refused m x) = rw u (rw m (rw x refl))
    dial-outcome a u (direct to m x b e) = rw u (rw m (rw x (rw b (rw e refl))))
    dial-outcome a u (proxied m x b) = rw u (rw m (rw x (rw b refl)))

-- A network that contains something; ParseCIDR returns no other.
abbrev pub IsNet : IpNet → Type 0
IsNet n = (b : ℕ) × (bs : Bytes) × (network_number n).0 ≡ b ∷ bs

contains_parts :
    (n : IpNet) (ip : Bytes)
    → contains n ip ≡ masked_equal (network_number n).0 (network_number n).1 (shortest ip)
unfolding contains
contains_parts n ip = refl

masked_equal_nil : (b : ℕ) (bs m : Bytes) → masked_equal (b ∷ bs) m [] ≡ false
unfolding masked_equal
masked_equal_nil b bs [] = refl
masked_equal_nil b bs (x ∷ m) = refl

shortest_nil : shortest [] ≡ []
unfolding to4
shortest_nil = refl

pub contains_nil : (n : IpNet) → IsNet n → contains n [] ≡ false
contains_nil n (b, bs, e) =
    contains_parts n [] ∙ rw (e, shortest_nil) (masked_equal_nil b bs (network_number n).1)

any_contains_nil : (ns : List IpNet) → All IsNet ns → any_contains ns [] ≡ false
unfolding any_contains
any_contains_nil [] v = refl
any_contains_nil (n ∷ ns) v = rw (contains_nil n v.0) (any_contains_nil ns v.1)

-- An address that splits, and whose host is no IP literal, lies in none of the networks, each of
-- which has a network number that is not empty.
pub match_nets_name :
    (t : IpText) (nets : List IpNet) (address : Bytes) {host port : Bytes}
    → All IsNet nets
    → split_host_port address ≡ value (host, port)
    → t.parse_ip host ≡ []
    → match_nets t nets address ≡ ok false
unfolding match_nets
match_nets_name t nets address v e n = rw e (rw n (ap ok (any_contains_nil nets v)))

module _ (t : IpText) (laws : IpTextLaws t) (p : IpNet) (v : IsNat64 p) (ip4 : Bytes)
    (l : length ip4 ≡ 4) (h : AreBytes ip4) (port : Bytes) (q : IsPort port) where
  -- A destination that NAT64 synthesized, with the prefix of the rules, from an IPv4 address is
  -- dialed exactly as that IPv4 address with the same port, whatever the other rules, the network and
  -- the connectors are. The port has no colon and no bracket in it.
  pub dial-synthesized {ℓ} :
      {A : Type ℓ} (d s : Bytes → Bytes → Result A) (r : Rules) (network : Bytes)
      → r.nat64 ≡ some p
      → dial t d s r network (join_host_port (t.ip_string (v.head ++ ip4)) port)
        ≡ dial t d s r network (join_host_port (t.ip_string ip4) port)
  unfolding dial
  dial-synthesized d s r network e = rw e (
      rw
        (
          nat64_unmap-synthesized t laws p v ip4 l h port q,
          nat64_unmap-v4 t laws p v ip4 l h port q,
        )
        refl)
