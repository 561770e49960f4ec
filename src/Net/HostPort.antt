-- ===== src/Net/HostPort.antt =====
-- net.JoinHostPort and net.SplitHostPort, and hostPort of connect.go.
pub mod Laws
use wirez.Net.Decimal.{parse_uint}
use wirez.Prelude.{
  ℕ, zero, suc, ◌+◌, ◌-◌, ◌≡◌, refl, Bool, true, false, ◌&&◌, ◌||◌, Option, none, some, List, [],
  ◌∷◌, ◌++◌, arith, Bytes, bytes, length, take, drop, has, index, last_index, get_or, ◌==◌,
  if◌then◌else◌,
}
use wirez.Throw.{
  Error, missing_port, too_many_colons, missing_bracket, unexpected_bracket, invalid_number, Result,
  value, failure, Outcome, ok, throw, ◌>>=◌, throw2,
}

-- A host with a colon is an IPv6 literal, which is bracketed.
unfoldable pub join_host_port : Bytes → Bytes → Bytes
join_host_port host port =
    if has b':' host then b'[' ∷ (host ++ (b']' ∷ b':' ∷ port)) else host ++ (b':' ∷ port)

-- The checks behind the two ways to find the host: no other bracket may stand in the rest.
unbracketed : Bytes → Bytes → Bytes → Bytes → Bytes → Result (Bytes × Bytes)
unbracketed s host port from_j from_k =
    if has b'[' from_j
    then failure (unexpected_bracket s)
    else if has b']' from_k
    then failure (unexpected_bracket s)
    else value (host, port)

-- The host in front of the colon at `i` has no colon of its own.
plain_host : Bytes → ℕ → Result (Bytes × Bytes)
unfolding unbracketed
plain_host s i =
    let host = take i s in
    if has b':' host then failure (too_many_colons s) else unbracketed s host (drop (suc i) s) s s

-- The bracket that ends the host stands just before the colon at `i`.
bracketed_host : Bytes → ℕ → Option ℕ → Result (Bytes × Bytes)
unfolding unbracketed
bracketed_host s i none = failure (missing_bracket s)
bracketed_host s i (some end) =
    if end + 1 == length s
    then failure (missing_port s)
    else if end + 1 == i
    then unbracketed s (drop 1 (take end s)) (drop (suc i) s) (drop 1 s) (drop (end + 1) s)
    else if get_or s (end + 1) 0 == b':'
    then failure (too_many_colons s)
    else failure (missing_port s)

at_colon : Bytes → Option ℕ → Result (Bytes × Bytes)
unfolding plain_host bracketed_host
at_colon s none = failure (missing_port s)
at_colon s (some i) =
    if get_or s 0 0 == b'[' then bracketed_host s i (index b']' s) else plain_host s i

unfoldable pub split_host_port : Bytes → Result (Bytes × Bytes)
unfolding at_colon
split_host_port s = at_colon s (last_index b':' s)

-- strconv.ParseUint(s, 10, 16).
abbrev pub port_max : ℕ
port_max = 65535

abbrev number_or : Bytes → Option ℕ → Result ℕ
number_or s none = failure (invalid_number s)
number_or s (some n) = value n

unfoldable pub parse_port : Bytes → Result ℕ
parse_port s = number_or s (parse_uint port_max s)

-- hostPort: the host and the numeric port of an address.
unfoldable pub host_port : Bytes → Outcome (Bytes × ℕ)
host_port address = do
  (host, port_str) ← throw2 (split_host_port address)
  port ← throw2 (parse_port port_str)
  ok (host, port)
