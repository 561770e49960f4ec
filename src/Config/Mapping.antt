-- ===== src/Config/Mapping.antt =====
-- parseMapping and the takeLast functions: the text of an -L mapping, read from its end.
pub mod Laws
pub mod Show
use wirez.Net.HostPort.{parse_port, join_host_port}
use wirez.Net.Ip.{is_nil}
use wirez.Net.IpText.{IpText}
use wirez.Prelude.{
  ℕ, zero, suc, ◌-◌, ◌||◌, Bool, Option, none, some, List, [], ◌∷◌, Bytes, bytes, length, take,
  drop, get_or, equal, last_index, ◌==◌, if◌then◌else◌,
}
use wirez.Throw.{Error, message, message_of, Outcome, ok, throw, throw2, ◌>>=◌}

abbrev pub put_first : ℕ → List Bytes → List Bytes
put_first x [] = (x ∷ []) ∷ []
put_first x (p ∷ ps) = (x ∷ p) ∷ ps

-- strings.Split(s, c) for one byte.
unfoldable pub split : ℕ → Bytes → List Bytes
split c [] = [] ∷ []
split c (x ∷ xs) = let rest = split c xs in if x == c then [] ∷ rest else put_first x rest

-- `if idx > 0 { rest = input[:idx] }`, and input[idx+1:] in front of it.
abbrev pub cut : Bytes → Option ℕ → Bytes × Bytes
cut input none = (input, [])
cut input (some i) = (drop (suc i) input, if i == 0 then [] else take i input)

-- takeLastPort.
unfoldable pub take_last_port : Bytes → Outcome (Bytes × Bytes)
take_last_port input = do
  let (port, rest) = cut input (last_index b':' input)
  _ ← throw2 (parse_port port)
  ok (port, rest)

abbrev pub network_of : List Bytes → Bytes
network_of (p ∷ n ∷ ps) = n
network_of _ = bytes "tcp"

abbrev pub is_network : Bytes → Bool
is_network n = equal n (bytes "tcp") || equal n (bytes "udp")

-- `parts[0]`; Split gives one part at least.
abbrev pub first_part : List Bytes → Bytes
first_part [] = []
first_part (p ∷ ps) = p

module _ (t : IpText) where
  abbrev pub checked_ip : Bytes → Bytes → Outcome (Bytes × Bytes)
  checked_ip host rest =
      if is_nil (t.parse_ip host)
      then throw (message (bytes "invalid IPv6 address"))
      else ok (host, rest)

  -- takeLastIPv6Host, behind the opening bracket: input[idx+1 : len(input)-1], and what stands
  -- before the colon in front of the bracket.
  abbrev pub bracketed : Bytes → Option ℕ → Outcome (Bytes × Bytes)
  bracketed input none = throw (message (bytes "invalid IPv6 address"))
  bracketed input (some zero) = checked_ip (drop 1 (take (length input - 1) input)) []
  bracketed input (some (suc i)) =
      if get_or input i 0 == b':'
      then checked_ip (drop (suc (suc i)) (take (length input - 1) input)) (take i input)
      else throw (message (bytes "missing colon before host"))

  unfoldable pub take_last_ipv6_host : Bytes → Outcome (Bytes × Bytes)
  take_last_ipv6_host input = bracketed input (last_index b'[' input)

  -- takeLastHost.
  unfoldable pub take_last_host : Bytes → Outcome (Bytes × Bytes)
  unfolding take_last_ipv6_host
  take_last_host [] = ok ([], [])
  take_last_host (x ∷ xs) =
      if get_or (x ∷ xs) (length xs) 0 == b']'
      then take_last_ipv6_host (x ∷ xs)
      else ok (cut (x ∷ xs) (last_index b':' (x ∷ xs)))

  -- The two addresses, from parts[0].
  unfoldable pub parse_addresses : Bytes → Bytes → Outcome (Bytes × Bytes)
  unfolding take_last_port take_last_host
  parse_addresses mapping text = do
    (target_port, before_port) ← take_last_port text
    (target_host, before_target) ← take_last_host before_port
    if equal target_host []
        then throw (message_of (bytes "empty target host in mapping") mapping)
        else (do
          (from_port, before_from) ← take_last_port before_target
          (from_host, rest) ← take_last_host before_from
          if equal rest []
              then ok (join_host_port from_host from_port, join_host_port target_host target_port)
              else throw (message_of (bytes "invalid source address in mapping") mapping))

  -- parseMapping: the network, the source address and the target address.
  unfoldable pub parse_mapping : Bytes → Outcome (Bytes × Bytes × Bytes)
  unfolding split parse_addresses
  parse_mapping mapping = do
    let parts = split b'/' mapping
    let network = network_of parts
    if is_network network
        then (do
          (from, target) ← parse_addresses mapping (first_part parts)
          ok (network, from, target))
        else throw (message_of (bytes "invalid protocol in mapping") network)
