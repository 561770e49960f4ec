-- ===== src/Tests/Wiring.antt =====
-- The flags of a run with a bypass network and a NAT64 prefix, and an address that NAT64 made.
use wirez.Config.Proxies.{Url}
use wirez.Dns.Policy.{policy_ip}
use wirez.Net.HostPort.{join_host_port}
use wirez.Net.HostPort.Laws.{IsPort}
use wirez.Net.Ip.{IpNet, any_contains}
use wirez.Net.Plain.{plain}
use wirez.Net.Plain.Laws.{plain-IpTextLaws}
use wirez.Prelude.{
  ℕ, ◌≡◌, refl, Bool, true, false, none, some, List, [], ◌∷◌, ◌++◌, Bytes, bytes, equal, arith,
  if◌then◌else◌,
}
use wirez.Route.Dial.{dial, match_nets}
use wirez.Route.Mapper.{map_address}
use wirez.Route.Nat64.{nat64_unmap, nat64_map}
use wirez.Route.Nat64.Laws.{mask96}
use wirez.Socks.Session.{Scheme}
use wirez.Throw.{Result, value, ok}
use wirez.Wiring.{Flags, Wired, wire}
use wirez.Wiring.Agree.{wire-agrees}

abbrev ten : IpNet
ten = record { ip = 10 ∷ 0 ∷ 0 ∷ 0 ∷ []; mask = 255 ∷ 0 ∷ 0 ∷ 0 ∷ [] }

abbrev tun_net : IpNet
tun_net = record { ip = 10 ∷ 1 ∷ 1 ∷ 0 ∷ []; mask = 255 ∷ 255 ∷ 255 ∷ 0 ∷ [] }

abbrev prefix64 : IpNet
prefix64 = record {
  ip = 0 ∷ 100 ∷ 255 ∷ 155 ∷ 0 ∷ 0 ∷ 0 ∷ 0 ∷ 0 ∷ 0 ∷ 0 ∷ 0 ∷ 0 ∷ 0 ∷ 0 ∷ 0 ∷ [];
  mask = mask96;
}

-- net.ParseCIDR and Mask.Size at the three texts, and url.Parse at one.
abbrev cidr : Bytes → Result (Bytes × IpNet)
cidr s =
    if equal s (bytes "10.0.0.0/8")
    then value ([], ten)
    else if equal s (bytes "64:ff9b::/96")
    then value ([], prefix64)
    else value ([], tun_net)

abbrev ones : Bytes → ℕ × ℕ
ones m = (96, 128)

abbrev url : Bytes → Result Url
url s = value (record { scheme = bytes "socks5"; host = bytes "9.9.9.9:1080"; user = none })

abbrev flags : Flags
flags = record {
  forward_proxies = bytes "9.9.9.9:1080" ∷ [];
  local_mappings = [];
  bypass_cidrs = bytes "10.0.0.0/8" ∷ [];
  dns_servers = bytes "10.0.0.53:53" ∷ [];
  ipv6 = false;
  nat64_prefix = bytes "64:ff9b::/96";
}

abbrev wired : Wired
wired = record {
  hops = record { scheme = Scheme.socks5; address = bytes "9.9.9.9:1080"; auth = none } ∷ [];
  rules = record { nat = []; bypass = ten ∷ []; tun = tun_net ∷ []; nat64 = some prefix64 };
  networks = bytes "10.1.1.1/24" ∷ [];
  upstreams = record { addrs = bytes "10.0.0.53:53" ∷ []; preferred = 0 };
  policy = record { ipv6 = false; allow = ten ∷ []; nat64 = some prefix64 };
}

flags-wired : wire plain url cidr ones flags ≡ ok wired
unfolding wire wirez.Config.Proxies.parse_proxy_urls equal wirez.Net.HostPort.split_host_port
    wirez.Prelude.last_index wirez.Config.Options.parse_address_mapper
    wirez.Config.Options.parse_bypass_nets wirez.Config.Options.parse_upstream_dns_list
    wirez.Config.Options.parse_nat64
flags-wired = refl

-- 10.0.0.5 in the prefix.
abbrev synthesized : Bytes
synthesized = 0 ∷ 100 ∷ 255 ∷ 155 ∷ 0 ∷ 0 ∷ 0 ∷ 0 ∷ 0 ∷ 0 ∷ 0 ∷ 0 ∷ 10 ∷ 0 ∷ 0 ∷ 5 ∷ []

abbrev echo : Bytes → Bytes → Result (Bytes × Bytes)
echo network address = value (network, address)

eighty-IsPort : IsPort (bytes "80")
eighty-IsPort = record { no_colon = refl; no_open = refl; no_close = refl }

synthesized_unmapped :
    nat64_unmap plain (some prefix64) (join_host_port (plain.ip_string synthesized) (bytes "80"))
    ≡ ok (bytes "10.0.0.5:80")
unfolding nat64_unmap wirez.Net.HostPort.split_host_port wirez.Prelude.last_index join_host_port
    wirez.Net.Plain.write_ip wirez.Prelude.index wirez.Net.Plain.read_ip
    wirez.Net.Decimal.digits_value wirez.Net.Ip.contains
synthesized_unmapped = refl

five_absent : map_address (bytes "tcp") (bytes "10.0.0.5:80") [] ≡ none
unfolding map_address wirez.Prelude.lookup
five_absent = refl

five_elsewhere : match_nets plain (tun_net ∷ []) (bytes "10.0.0.5:80") ≡ ok false
unfolding match_nets wirez.Net.HostPort.split_host_port wirez.Prelude.last_index any_contains
    wirez.Net.Ip.contains wirez.Net.Plain.read_ip wirez.Net.Decimal.digits_value
five_elsewhere = refl

wire-agrees_example :
    (to : Bytes) × (nat64_map plain (some prefix64) (bytes "10.0.0.5:80") ≡ ok to)
    × (dial plain echo echo wired.rules
          (bytes "tcp")
          (join_host_port (plain.ip_string synthesized) (bytes "80"))
        ≡ ok (
            if any_contains (ten ∷ []) (policy_ip (some prefix64) synthesized)
            then echo (bytes "tcp") to
            else echo (bytes "tcp") (bytes "10.0.0.5:80")))
wire-agrees_example =
    wire-agrees plain plain-IpTextLaws url cidr ones flags wired echo echo (bytes "tcp")
      (bytes "80") synthesized (bytes "10.0.0.5:80") flags-wired eighty-IsPort refl (omega arith)
      synthesized_unmapped five_absent five_elsewhere
