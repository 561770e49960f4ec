-- ===== src/Wiring.antt =====
-- What runRun of run.go makes of its flags: the hops, the rules for a connection, the upstreams and
-- the policy of the resolver, and the networks of the stack.
pub mod Agree
use wirez.Config.Options.{
  parse_address_mapper, parse_nat64, parse_bypass_nets, parse_upstream_dns_list,
}
use wirez.Config.Proxies.{Url, parse_proxy_urls}
use wirez.Container.Files.{tun_network_addr}
use wirez.Container.Namespace.{tun_network_addr_v6}
use wirez.Dns.Policy.{Policy}
use wirez.Dns.Upstreams.{Upstreams, new_upstreams}
use wirez.Net.Ip.{IpNet}
use wirez.Net.IpText.{IpText}
use wirez.Prelude.{ℕ, Bool, Option, List, [], ◌∷◌, ◌++◌, Bytes, if◌then◌else◌}
use wirez.Route.Dial.{Rules}
use wirez.Route.Mapper.{Mapper}
use wirez.Socks.Session.{ProxyAddr}
use wirez.Throw.{Result, Outcome, ok, ◌>>=◌}

-- runFlags, as far as its texts are parsed.
pub record Flags : Type 0 where
  pub forward_proxies : List Bytes
  pub local_mappings : List Bytes
  pub bypass_cidrs : List Bytes
  pub dns_servers : List Bytes
  pub ipv6 : Bool
  pub nat64_prefix : Bytes

-- The texts, parsed.
pub record Parsed : Type 0 where
  pub hops : List ProxyAddr
  pub nat : Mapper
  pub bypass : List IpNet
  pub upstreams : List Bytes
  pub nat64 : Option IpNet

-- What the parts of the program are made with.
pub record Wired : Type 0 where
  pub hops : List ProxyAddr
  pub rules : Rules
  pub networks : List Bytes
  pub upstreams : Upstreams
  pub policy : Policy

-- tunNetworks.
abbrev pub tun_networks : Bool → List Bytes
tun_networks ipv6 = (tun_network_addr ∷ []) ++ (if ipv6 then tun_network_addr_v6 ∷ [] else [])

module _ (t : IpText) (url_parse : Bytes → Result Url) (parse_cidr : Bytes → Result (Bytes × IpNet))
    (size : Bytes → ℕ × ℕ) where
  -- The texts of the flags, which runRun parses before it starts the container.
  unfoldable pub parse_flags : Flags → Outcome Parsed
  parse_flags f = do
    hops ← parse_proxy_urls url_parse f.forward_proxies
    nat ← parse_address_mapper t f.local_mappings
    bypass ← parse_bypass_nets parse_cidr size f.bypass_cidrs
    upstreams ← parse_upstream_dns_list t f.dns_servers
    nat64 ← parse_nat64 parse_cidr size f.nat64_prefix
    ok (record { hops = hops; nat = nat; bypass = bypass; upstreams = upstreams; nat64 = nat64 })

  -- What runRun makes of them when the container has been started.
  unfoldable pub wire : Flags → Outcome Wired
  unfolding parse_flags
  wire f = do
    p ← parse_flags f
    tun ← parse_bypass_nets parse_cidr size (tun_networks f.ipv6)
    ok (record {
      hops = p.hops;
      rules = record { nat = p.nat; bypass = p.bypass; tun = tun; nat64 = p.nat64 };
      networks = tun_networks f.ipv6;
      upstreams = new_upstreams p.upstreams;
      policy = record { ipv6 = f.ipv6; allow = p.bypass; nat64 = p.nat64 };
    })
