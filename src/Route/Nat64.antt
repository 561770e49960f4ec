-- ===== src/Route/Nat64.antt =====
-- nat64Unmap and nat64Map: IPv4 behind a NAT64 prefix, and back.
pub mod Laws
use wirez.Net.HostPort.{join_host_port, split_host_port}
use wirez.Net.Ip.{IpNet, contains, to4, to16, is_nil}
use wirez.Net.IpText.{IpText}
use wirez.Prelude.{
  ℕ, not, ◌||◌, Bool, Option, none, some, List, [], ◌∷◌, ◌++◌, Bytes, length, take, drop, ltb,
  if◌then◌else◌,
}
use wirez.Throw.{Outcome, ok, throw, panic, index_out_of_range, throw2, ◌>>=◌}

-- ip[12:16]
abbrev pub low_bytes : Bytes → Outcome Bytes
low_bytes ip = if ltb (length ip) 16 then panic index_out_of_range else ok (take 4 (drop 12 ip))

abbrev pub zeros16 : Bytes
zeros16 = 0 ∷ 0 ∷ 0 ∷ 0 ∷ 0 ∷ 0 ∷ 0 ∷ 0 ∷ 0 ∷ 0 ∷ 0 ∷ 0 ∷ 0 ∷ 0 ∷ 0 ∷ 0 ∷ []

-- make(net.IP, 16), with the prefix copied over it, and ip4 over the last four bytes.
abbrev pub embed : IpNet → Bytes → Bytes
embed prefix ip4 = take 12 (to16 prefix.ip ++ zeros16) ++ ip4

module _ (t : IpText) where
  open t use {parse_ip, ip_string}

  unfoldable pub nat64_unmap : Option IpNet → Bytes → Outcome Bytes
  nat64_unmap none address = ok address
  nat64_unmap (some prefix) address = do
    (host, port) ← throw2 (split_host_port address)
    let ip = parse_ip host
    if not (is_nil (to4 ip)) || not (contains prefix ip)
        then ok address
        else (low_bytes ip >>= λ ip4. ok (join_host_port (ip_string ip4) port))

  unfoldable pub nat64_map : Option IpNet → Bytes → Outcome Bytes
  nat64_map none address = ok address
  nat64_map (some prefix) address = do
    (host, port) ← throw2 (split_host_port address)
    let ip4 = to4 (parse_ip host)
    if is_nil ip4 then ok address else ok (join_host_port (ip_string (embed prefix ip4)) port)
