-- ===== src/Config/Options.antt =====
-- The other flags of config.go and resolver.go: the NAT64 prefix, the -B, -D and -L lists, the log
-- level; and from run.go the chain of proxies.
pub mod Chains
use wirez.Config.Mapping.{parse_mapping}
use wirez.Net.HostPort.{split_host_port, join_host_port}
use wirez.Net.Ip.{IpNet, is_nil}
use wirez.Net.IpText.{IpText}
use wirez.Prelude.{
  ℕ, zero, suc, ◌+◌, ◌-◌, ◌||◌, ◌&&◌, not, Bool, true, false, Option, none, some, List, [], ◌∷◌,
  ◌++◌, Bytes, bytes, length, equal, has, ◌==◌, ltb, leb, if◌then◌else◌,
}
use wirez.Route.Mapper.{Mapper, add_address_mapping}
use wirez.Socks.Session.{ProxyAddr, Scheme, socks5, http}
use wirez.Throw.{
  Error, message, message_of, Result, value, failure, Outcome, ok, throw, panic, throw2, ◌>>=◌,
}

-- Each of a list is parsed in turn; the first that throws ends the loop.
unfoldable pub each {ℓ κ} : {A : Type ℓ} {B : Type κ} → (A → Outcome B) → List A → Outcome (List B)
each f [] = ok []
each f (x ∷ xs) = f x >>= λ y. each f xs >>= λ ys. ok (y ∷ ys)

module _ (t : IpText) where
  -- parseUpstreamDNS.
  unfoldable pub parse_upstream_dns : Bytes → Outcome Bytes
  parse_upstream_dns s =
      if equal s []
      then throw (message (bytes "empty -D dns address"))
      else elim (split_host_port s) [
        | value _ ↦ ok s
        | failure _ ↦
            if is_nil (t.parse_ip s)
            then throw (message_of (bytes "invalid -D dns address") s)
            else ok (join_host_port s (bytes "53"))
      ]

  -- parseUpstreamDNSList.
  unfoldable pub parse_upstream_dns_list : List Bytes → Outcome (List Bytes)
  unfolding each parse_upstream_dns
  parse_upstream_dns_list list = each parse_upstream_dns list

  -- The table with one mapping more.
  abbrev mapped : Mapper → Outcome (Unit {0}) × Mapper → Outcome Mapper
  mapped m (ok _, m') = ok m'
  mapped m (throw e, m') = throw e
  mapped m (panic p, m') = panic p

  unfoldable pub add_mapping : Mapper → Bytes → Outcome Mapper
  add_mapping m mapping = do
    (network, from, target) ← parse_mapping t mapping
    mapped m (add_address_mapping network from target m)

  unfoldable pub add_mappings : Mapper → List Bytes → Outcome Mapper
  unfolding add_mapping
  add_mappings m [] = ok m
  add_mappings m (s ∷ ss) = add_mapping m s >>= λ m'. add_mappings m' ss

  -- parseAddressMapper.
  unfoldable pub parse_address_mapper : List Bytes → Outcome Mapper
  unfolding add_mappings
  parse_address_mapper mappings = add_mappings [] mappings

-- net.ParseCIDR, and Mask.Size as the number of leading ones and of all bits.
module _ (parse_cidr : Bytes → Result (Bytes × IpNet)) (size : Bytes → ℕ × ℕ) where
  -- parseNAT64.
  unfoldable pub parse_nat64 : Bytes → Outcome (Option IpNet)
  parse_nat64 s = if equal s [] then ok none else (do
    (_, n) ← throw2 (parse_cidr s)
    let (ones, bits) = size n.mask
    if not (bits == 128) || not (ones == 96)
        then throw (message_of (bytes "invalid -nat64 prefix, must be an IPv6 /96") s)
        else ok (some n))

  -- parseBypassNets.
  unfoldable pub parse_bypass_nets : List Bytes → Outcome (List IpNet)
  unfolding each
  parse_bypass_nets cidrs = each (λ c. throw2 (parse_cidr c) >>= λ (_, n). ok n) cidrs

-- setLogLevel: slog's level as a number over -8, and `none` for a count below zero.
unfoldable pub log_level : Option ℕ → ℕ
log_level none = 108
log_level (some zero) = 8
log_level (some (suc zero)) = 4
log_level (some (suc (suc n))) = 0

-- The Connector that buildProxyChain makes, as the constructors it calls.
pub data Chain : Type 0 where
  direct : Chain
  via_http : Chain → ProxyAddr → Chain
  via_socks5 : Chain → ProxyAddr → Chain
  over_udp : Chain → Chain → ProxyAddr → Chain
  unsupported_udp : Chain

abbrev pub is_http : Scheme → Bool
is_http http = true
is_http socks5 = false

abbrev pub hop : Chain → ProxyAddr → Chain
hop c p = if is_http p.scheme then via_http c p else via_socks5 c p

-- The first loop: the last hop, all hops from the first on, and whether one was HTTP.
unfoldable pub tcp_hops : Chain → List ProxyAddr → Chain × List Chain × Bool
tcp_hops c [] = (c, c ∷ [], false)
tcp_hops c (p ∷ ps) =
    let (last, hops, seen) = tcp_hops (hop c p) ps in (last, c ∷ hops, is_http p.scheme || seen)

-- The second loop: hop i is opened over tcpHops[i].
unfoldable pub udp_hops : Chain → List Chain → List ProxyAddr → Chain
udp_hops u (c ∷ cs) (p ∷ ps) = udp_hops (over_udp c u p) cs ps
udp_hops u _ _ = u

-- buildProxyChain.
unfoldable pub build_proxy_chain : List ProxyAddr → Chain × Chain
unfolding tcp_hops udp_hops
build_proxy_chain proxies =
    let (tcp, hops, seen) = tcp_hops direct proxies in
    (tcp, if seen then unsupported_udp else udp_hops direct hops proxies)
