-- ===== src/Tests/Route.antt =====
-- Routes at a small table: one mapping for every host, one bypass network, and a NAT64 prefix.
use wirez.Net.Decimal.{digits_value}
use wirez.Net.HostPort.{join_host_port, split_host_port}
use wirez.Net.HostPort.Laws.{IsHost, IsPort}
use wirez.Net.Ip.{IpNet, contains, to4, any_contains, network_number}
use wirez.Net.Plain.{plain, read_ip, write_ip}
use wirez.Net.Plain.Laws.{plain-IpTextLaws}
use wirez.Prelude.{◌≡◌, refl, some, [], ◌∷◌, ◌++◌, Bytes, bytes, arith, last_index, lookup, equal}
use wirez.Route.Dial.{Rules, dial, match_nets}
use wirez.Route.Dial.Order.{dial-synthesized}
use wirez.Route.Dial.Total.{IsOk, dial_total}
use wirez.Route.Dial.Order.{IsNet}
use wirez.Route.Mapper.{Mapper, map_address}
use wirez.Route.Nat64.{nat64_unmap, nat64_map}
use wirez.Route.Nat64.Laws.{IsNat64, mask96, nat64_unmap-nat64_map}
use wirez.Throw.{Result, value, ok, ◌>>=◌}

abbrev table : Mapper
table = (bytes "tcp", (bytes "53", bytes "1.1.1.1:53") ∷ []) ∷ []

abbrev ten : IpNet
ten = record { ip = 10 ∷ 0 ∷ 0 ∷ 0 ∷ []; mask = 255 ∷ 0 ∷ 0 ∷ 0 ∷ [] }

abbrev tun_net : IpNet
tun_net = record { ip = 10 ∷ 1 ∷ 1 ∷ 0 ∷ []; mask = 255 ∷ 255 ∷ 255 ∷ 0 ∷ [] }

abbrev head64 : Bytes
head64 = 0 ∷ 100 ∷ 255 ∷ 155 ∷ 0 ∷ 0 ∷ 0 ∷ 0 ∷ 0 ∷ 0 ∷ 0 ∷ 0 ∷ []

abbrev prefix64 : IpNet
prefix64 = record { ip = head64 ++ 0 ∷ 0 ∷ 0 ∷ 0 ∷ []; mask = mask96 }

abbrev prefix64-IsNat64 : IsNat64 prefix64
prefix64-IsNat64 = record {
  head = head64;
  head_length = refl;
  head_bytes = omega arith;
  ip_is = refl;
  mask_is = refl;
  not_v4 = refl;
}

abbrev rules : Rules
rules = record { nat = table; bypass = ten ∷ []; tun = tun_net ∷ []; nat64 = some prefix64 }

-- A connector that returns what it was asked to dial.
abbrev echo : Bytes → Bytes → Result (Bytes × Bytes)
echo network address = value (network, address)

eighty-IsPort : IsPort (bytes "80")
eighty-IsPort = record { no_colon = refl; no_open = refl; no_close = refl }

nat64_unmap-nat64_map_example :
    (nat64_map plain (some prefix64) (join_host_port (write_ip (192 ∷ 0 ∷ 2 ∷ 1 ∷ [])) (bytes "80"))
      >>= nat64_unmap plain (some prefix64))
    ≡ ok (join_host_port (write_ip (192 ∷ 0 ∷ 2 ∷ 1 ∷ [])) (bytes "80"))
nat64_unmap-nat64_map_example =
    nat64_unmap-nat64_map plain plain-IpTextLaws prefix64 prefix64-IsNat64 (192 ∷ 0 ∷ 2 ∷ 1 ∷ [])
      refl (omega arith) (bytes "80") eighty-IsPort

dial-synthesized_example :
    dial plain echo echo rules
      (bytes "tcp")
      (join_host_port (write_ip (prefix64-IsNat64.head ++ (10 ∷ 0 ∷ 0 ∷ 5 ∷ []))) (bytes "80"))
    ≡ dial plain echo echo rules
        (bytes "tcp")
        (join_host_port (write_ip (10 ∷ 0 ∷ 0 ∷ 5 ∷ [])) (bytes "80"))
dial-synthesized_example =
    dial-synthesized plain plain-IpTextLaws prefix64 prefix64-IsNat64 (10 ∷ 0 ∷ 0 ∷ 5 ∷ []) refl
      (omega arith) (bytes "80") eighty-IsPort echo echo rules (bytes "tcp") refl

dial_runs :
    dial plain echo echo rules (bytes "tcp") (bytes "8.8.8.8:80")
    ≡ ok (value (bytes "tcp", bytes "8.8.8.8:80"))
unfolding dial nat64_unmap split_host_port last_index to4 read_ip digits_value map_address lookup
    equal match_nets any_contains contains
dial_runs = refl

any_IsHost : IsHost []
any_IsHost = record { no_open = refl; no_close = refl }

sample-IsHost : IsHost (bytes "1.2.3.4")
sample-IsHost = record { no_open = refl; no_close = refl }

prefix64-IsNet : IsNet prefix64
unfolding network_number
prefix64-IsNet = (0, 100 ∷ 255 ∷ 155 ∷ 0 ∷ 0 ∷ 0 ∷ 0 ∷ 0 ∷ 0 ∷ 0 ∷ 0 ∷ 0 ∷ 0 ∷ 0 ∷ 0 ∷ [], refl)

dial_total_example :
    IsOk (dial plain echo echo rules (bytes "tcp") (join_host_port (bytes "::1") (bytes "80")))
dial_total_example =
    dial_total plain plain-IpTextLaws (bytes "80") eighty-IsPort echo echo rules (bytes "tcp")
      prefix64-IsNet (bytes "::1") (record { no_open = refl; no_close = refl })
