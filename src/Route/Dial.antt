-- ===== src/Route/Dial.antt =====
-- matchNets and localForwardingConnector.DialContext.
pub mod Order
pub mod Total
use wirez.Net.HostPort.{split_host_port}
use wirez.Net.Ip.{IpNet, any_contains}
use wirez.Net.IpText.{IpText}
use wirez.Prelude.{Bool, true, false, Option, none, some, List, Bytes, bytes, if◌then◌else◌}
use wirez.Route.Mapper.{Mapper, map_address}
use wirez.Route.Nat64.{nat64_unmap, nat64_map}
use wirez.Throw.{Error, message_of, Result, failure, Outcome, ok, throw2, ◌>>=◌}

-- localForwardingConnector without its two connectors.
pub record Rules : Type 0 where
  pub nat : Mapper
  pub bypass : List IpNet
  pub tun : List IpNet
  pub nat64 : Option IpNet

-- errTUNRefused, with the address in front.
abbrev pub tun_refused : Bytes → Error
tun_refused = message_of (bytes "destination is the TUN address and has no -L mapping")

module _ (t : IpText) where
  unfoldable pub match_nets : List IpNet → Bytes → Outcome Bool
  match_nets nets address = do
    (host, _) ← throw2 (split_host_port address)
    ok (any_contains nets (t.parse_ip host))

  -- The two connectors are dialed with a network and an address.
  module _ {ℓ} {A : Type ℓ} (direct socks : Bytes → Bytes → Result A) (r : Rules)
      (network : Bytes) where
    -- Behind the TUN test: the bypass networks, and the proxy.
    past_tun : Bytes → Outcome (Result A)
    past_tun address = do
      bypassed ← match_nets r.bypass address
      if bypassed
          then (nat64_map t r.nat64 address >>= λ mapped. ok (direct network mapped))
          else ok (socks network address)

    pub past_nat : Bytes → Option Bytes → Outcome (Result A)
    unfolding past_tun
    past_nat address (some to) = ok (direct network to)
    past_nat address none = do
      refused ← match_nets r.tun address
      if refused then ok (failure (tun_refused address)) else past_tun address

    unfoldable pub dial : Bytes → Outcome (Result A)
    unfolding past_nat
    dial address = do
      unmapped ← nat64_unmap t r.nat64 address
      past_nat unmapped (map_address network unmapped r.nat)
