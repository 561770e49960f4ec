-- ===== src/Route/Mapper.antt =====
-- addressMapper: the -L table, by network and then by address or bare port.
pub mod Laws
use wirez.Net.HostPort.{split_host_port, parse_port}
use wirez.Prelude.{
  ℕ, suc, ◌||◌, Bool, Option, none, some, List, [], ◌∷◌, Bytes, bytes, drop, equal, last_index,
  lookup, insert, if◌then◌else◌,
}
use wirez.Throw.{Error, Outcome, ok, throw, panic, throw2, ◌>>=◌}

abbrev pub Table : Type 0
Table = List (Bytes × Bytes)

-- The field `nat`.
abbrev pub Mapper : Type 0
Mapper = List (Bytes × Table)

-- Reading a missing key of the outer map gives a nil map, in which every key is missing.
abbrev pub table_of : Option Table → Table
table_of none = []
table_of (some t) = t

unfoldable pub entry : Bytes → Bytes → Mapper → Option Bytes
entry network key m = lookup key (table_of (lookup network m))

-- address[strings.LastIndex(address, ":")+1:], where LastIndex is -1 if there is no colon.
abbrev after_colon : Bytes → Option ℕ → Bytes
after_colon address none = address
after_colon address (some i) = drop (suc i) address

unfoldable pub last_port : Bytes → Bytes
last_port address = after_colon address (last_index b':' address)

abbrev pub or_else : Option Bytes → Option Bytes → Option Bytes
or_else none o = o
or_else (some a) o = some a

-- MapAddress: an entry for the whole address wins over one for its port.
unfoldable pub map_address : Bytes → Bytes → Mapper → Option Bytes
unfolding entry last_port
map_address network address m =
    or_else (entry network address m) (entry network (last_port address) m)

-- A host that stands for every host.
unfoldable pub is_any_host : Bytes → Bool
is_any_host host = equal host [] || equal host (bytes "0.0.0.0") || equal host (bytes "::")

-- `if _, ok := m.nat[network]; !ok { m.nat[network] = make(...) }`
abbrev with_table : Bytes → Mapper → Option Table → Mapper
with_table network m none = insert network [] m
with_table network m (some t) = m

abbrev pub ensure_table : Bytes → Mapper → Mapper
ensure_table network m = with_table network m (lookup network m)

-- `m.nat[network][key] = to`
abbrev pub put : Bytes → Bytes → Bytes → Mapper → Mapper
put network key to m = insert network (insert key to (table_of (lookup network m))) m

-- The key under which a source address is kept.
abbrev pub key_of : Bytes → Bytes → Bytes → Bytes
key_of host port from = if is_any_host host then port else from

-- AddAddressMapping: what it returns or throws, and the table that it leaves.
abbrev added :
    Bytes → Bytes → Bytes → Mapper → Outcome (Bytes × Bytes) → Outcome (Unit {0}) × Mapper
added network from to m (ok (host, port)) =
    (ok tt, put network (key_of host port from) to (ensure_table network m))
added network from to m (throw e) = (throw e, ensure_table network m)
added network from to m (panic p) = (panic p, ensure_table network m)

-- The source address must split, and its port must be a number.
abbrev pub source_parts : Bytes → Outcome (Bytes × Bytes)
source_parts from = do
  (host, port) ← throw2 (split_host_port from)
  _ ← throw2 (parse_port port)
  ok (host, port)

unfoldable pub add_address_mapping : Bytes → Bytes → Bytes → Mapper → Outcome (Unit {0}) × Mapper
unfolding is_any_host
add_address_mapping network from to m = added network from to m (source_parts from)
