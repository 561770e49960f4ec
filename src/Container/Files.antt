-- ===== src/Container/Files.antt =====
-- tunPeerAddr, resolvConfContent and hostsContent. The host's files are taken as ASCII text: spaces
-- beyond ASCII, which strings.Fields knows too, are not modelled.
pub mod Fields
pub mod Kept
pub mod Laws
use wirez.Config.Mapping.{split}
use wirez.Net.Ip.{IpNet, to4}
use wirez.Net.IpText.{IpText}
use wirez.Prelude.{
  ℕ, zero, suc, ◌+◌, ◌%◌, ◌||◌, not, Bool, true, false, List, [], ◌∷◌, ◌++◌, Bytes, bytes, length,
  equal, leb, ◌&&◌, ◌==◌, if◌then◌else◌,
}
use wirez.Throw.{Fault, index_out_of_range, Result, Outcome, ok, throw, panic, throw2, ◌>>=◌}

-- The ASCII characters of unicode.IsSpace: the five from \t on, and the blank.
abbrev pub is_space : ℕ → Bool
is_space c = (leb 9 c && leb c 13) || c == b' '

-- Whether a text begins with a character of a word.
abbrev pub begins_word : Bytes → Bool
begins_word [] = false
begins_word (c ∷ s) = not (is_space c)

abbrev pub put_char : Bool → ℕ → List Bytes → List Bytes
put_char true c (w ∷ ws) = (c ∷ w) ∷ ws
put_char true c [] = (c ∷ []) ∷ []
put_char false c ws = (c ∷ []) ∷ ws

-- strings.Fields.
unfoldable pub fields : Bytes → List Bytes
fields [] = []
fields (c ∷ s) = let rest = fields s in if is_space c then rest else put_char (begins_word s) c rest

-- strings.Join(fields, " ").
abbrev pub join : List Bytes → Bytes
join [] = []
join (w ∷ []) = w
join (w ∷ v ∷ ws) = w ++ b' ' ∷ join (v ∷ ws)

-- `ip[3]++` on a byte.
abbrev pub next_ip : Bytes → Outcome Bytes
next_ip (a ∷ b ∷ c ∷ d ∷ s) = ok (a ∷ b ∷ c ∷ (d + 1) % 256 ∷ s)
next_ip _ = panic index_out_of_range

-- tunNetworkAddr.
abbrev pub tun_network_addr : Bytes
tun_network_addr = bytes "10.1.1.1/24"

-- tunPeerAddr.
abbrev pub tun_peer_addr : (Bytes → Result (Bytes × IpNet)) → Outcome Bytes
tun_peer_addr parse_cidr = do (ip, _) ← throw2 (parse_cidr tun_network_addr); next_ip (to4 ip)

abbrev pub is_kept : Bytes → Bool
is_kept f =
    equal f (bytes "search")
    || equal f (bytes "domain")
    || equal f (bytes "options")
    || equal f (bytes "sortlist")

abbrev pub keep_line : List Bytes → Bytes
keep_line [] = []
keep_line (f ∷ fs) = if is_kept f then join (f ∷ fs) ++ b'\n' ∷ [] else []

-- The loop over the lines of the host's file.
unfoldable pub keep_lines : List Bytes → Bytes
keep_lines [] = []
keep_lines (l ∷ ls) = keep_line (fields l) ++ keep_lines ls

module _ (t : IpText) (peer : Bytes) where
  abbrev pub nameserver : Bool → Bytes
  nameserver dns = if dns then bytes "127.0.0.1" else t.ip_string peer

  -- resolvConfContent, for the address that tunPeerAddr gives.
  unfoldable pub resolv_conf_content : Bool → Bytes → Bytes
  unfolding keep_lines
  resolv_conf_content dns host_resolv =
      (bytes "nameserver " ++ (nameserver dns ++ b'\n' ∷ []))
      ++ keep_lines (split b'\n' host_resolv)

-- strings.TrimRight(s, "\n").
abbrev pub trimmed : ℕ → Bytes → Bytes
trimmed c [] = if c == b'\n' then [] else c ∷ []
trimmed c (d ∷ s) = c ∷ d ∷ s

unfoldable pub trim_newlines : Bytes → Bytes
trim_newlines [] = []
trim_newlines (c ∷ s) = trimmed c (trim_newlines s)

-- A line of the hosts file.
abbrev pub host_line : Bytes → Bytes → Bytes
host_line address names = address ++ b' ' ∷ (names ++ b'\n' ∷ [])

abbrev pub own_hosts : Bytes → Bytes → Bytes
own_hosts peer hostname =
    let fqdn = hostname ++ b' ' ∷ (hostname ++ bytes ".localdomain") in
    host_line (bytes "127.0.0.1") (bytes "localhost")
    ++ (host_line (bytes "::1") (bytes "localhost")
        ++ (host_line peer (bytes "localhost")
            ++ (host_line (bytes "127.0.0.1") fqdn ++ host_line (bytes "::1") fqdn)))

abbrev pub host_entries : Bytes → Bytes → Bytes
host_entries own [] = own
host_entries own (c ∷ s) = (c ∷ s) ++ b'\n' ∷ own

-- hostsContent, for the text of the address that tunPeerAddr gives.
unfoldable pub hosts_content : Bytes → Bytes → Bytes → Bytes
unfolding trim_newlines
hosts_content peer hostname host_hosts =
    host_entries (own_hosts peer hostname) (trim_newlines host_hosts)
