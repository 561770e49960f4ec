-- ===== src/Route/Mapper/Laws.antt =====
-- About AddAddressMapping and MapAddress of connect.go.
use wirez.Net.HostPort.{parse_port, join_host_port}
use wirez.Net.HostPort.Laws.{IsHost, IsPort, split_host_port-join_host_port}
use wirez.Prelude.{
  ℕ, ◌≡◌, refl, sym, ap, ◌∙◌, inl, inr, true, false, ◌&&◌, Option, some, [], ◌∷◌, ◌++◌,
  append_assoc, arith, Bytes, equal, equal_iff, equal_refl, lookup, insert, lookup-insert, has,
  has-append, if◌then◌else◌, Bool-cases, Option-cases, last_index-append, drop-suc-length,
}
use wirez.Route.Mapper.{
  Mapper, table_of, entry, last_port, map_address, is_any_host, ensure_table, put, key_of,
  add_address_mapping, source_parts, or_else,
}
use wirez.Throw.{Error, value, ok, throw}

entry-ensure_table :
    (network n k : Bytes) (m : Mapper) → entry n k (ensure_table network m) ≡ entry n k m
unfolding entry lookup
entry-ensure_table network n k m = elim (Option-cases (lookup network m)) [
  | inr (t, e) ↦ rw e refl
  | inl e ↦ rw e (rw (lookup-insert network n [] m) (ground (arith, equal_iff network n)))
]

entry-put :
    (network key to n k : Bytes) (m : Mapper)
    → entry n k (put network key to m)
      ≡ (if equal network n && equal key k then some to else entry n k m)
unfolding entry
entry-put network key to n k m =
    rw (lookup-insert network n (insert key to (table_of (lookup network m))) m)
      (ground (arith, equal_iff network n, lookup-insert key k to (table_of (lookup network m))))

-- A mapping that is accepted sets the entry of its network and key, and leaves every other entry.
pub entry-add_address_mapping :
    (network from to host port n k : Bytes) (m : Mapper)
    → source_parts from ≡ ok (host, port)
    → entry n k (add_address_mapping network from to m).1
      ≡ (if equal network n && equal (key_of host port from) k then some to else entry n k m)
unfolding add_address_mapping
entry-add_address_mapping network from to host port n k m h = rw h (
    rw
      (
        entry-put network (key_of host port from) to n k (ensure_table network m),
        entry-ensure_table network n k m,
      )
      refl)

-- A mapping that is refused leaves every entry as it was.
pub entry-add_refused :
    (network from to n k : Bytes) (m : Mapper) {e : Error}
    → source_parts from ≡ throw e
    → ((add_address_mapping network from to m).0 ≡ throw e)
      × (entry n k (add_address_mapping network from to m).1 ≡ entry n k m)
unfolding add_address_mapping
entry-add_refused network from to n k m h = (rw h refl, rw h (entry-ensure_table network n k m))

source_parts-join :
    (host port : Bytes) {p : ℕ}
    → IsHost host
    → IsPort port
    → parse_port port ≡ value p
    → source_parts (join_host_port host port) ≡ ok (host, port)
source_parts-join host port h q e = rw (split_host_port-join_host_port host port h q) (rw e refl)

-- A joined address with a port is a source that a mapping may have.
pub add_address_mapping_ok :
    (network host port to : Bytes) (m : Mapper) {p : ℕ}
    → IsHost host
    → IsPort port
    → parse_port port ≡ value p
    → (add_address_mapping network (join_host_port host port) to m).0 ≡ ok tt
unfolding add_address_mapping
add_address_mapping_ok network host port to m h q e = rw (source_parts-join host port h q e) refl

last_port-append : (s port : Bytes) → has b':' port ≡ false → last_port (s ++ (b':' ∷ port)) ≡ port
unfolding last_port
last_port-append s port h = rw (last_index-append b':' s port h) (drop-suc-length s b':' port)

-- The port of a joined address is found behind its last colon.
pub last_port-join : (host port : Bytes) → IsPort port → last_port (join_host_port host port) ≡ port
last_port-join host port q = elim (Bool-cases (has b':' host)) [
  | inr c ↦ unfold join_host_port in rw c (last_port-append host port q.no_colon)
  | inl c ↦
      unfold join_host_port in
      rw c (
        ap (λ (s : Bytes). last_port (b'[' ∷ s)) (sym (append_assoc host (b']' ∷ []) (b':' ∷ port)))
        ∙ last_port-append (b'[' ∷ (host ++ b']' ∷ [])) port q.no_colon)
]

has-join : (host port : Bytes) → has b':' (join_host_port host port) ≡ true
unfolding join_host_port
has-join host port = elim (Bool-cases (has b':' host)) [
  | inl c ↦ rw c (ground (arith, has-append b':' host (b']' ∷ b':' ∷ port)))
  | inr c ↦ rw c (ground (arith, has-append b':' host (b':' ∷ port)))
]

port_ne_join : (dest port : Bytes) → IsPort port → equal port (join_host_port dest port) ≡ false
port_ne_join dest port q = elim (Bool-cases (equal port (join_host_port dest port))) [
  | inr ne ↦ ne
  | inl same ↦ cc (
    ap (has b':') ((equal_iff port (join_host_port dest port)).0 same),
    has-join dest port,
    q.no_colon,
  )
]

or_else-some : (o p : Option Bytes) {a : Bytes} → o ≡ some a → or_else o p ≡ some a
or_else-some o p e = rw e refl

module _ (network host port to : Bytes) (m : Mapper) {p : ℕ} (h : IsHost host) (q : IsPort port)
    (e : parse_port port ≡ value p) where
  abbrev after : Mapper
  after = (add_address_mapping network (join_host_port host port) to m).1

  -- A mapping of one address sends that address to its target, whatever the table held before.
  pub map_address-add_specific :
      is_any_host host ≡ false → map_address network (join_host_port host port) after ≡ some to
  unfolding map_address
  map_address-add_specific specific = or_else-some _ _ (
      entry-add_address_mapping network (join_host_port host port) to host port network
        (join_host_port host port) m (source_parts-join host port h q e)
      ∙ rw (specific, equal_refl network, equal_refl (join_host_port host port)) refl)

  -- A mapping for every host sends each address with that port to its target, unless the table
  -- has an entry for that very address; that entry then still wins.
  pub map_address-add_any :
      (dest : Bytes)
      → is_any_host host ≡ true
      → map_address network (join_host_port dest port) after
        ≡ or_else (entry network (join_host_port dest port) m) (some to)
  unfolding map_address
  map_address-add_any dest any =
      let parts = source_parts-join host port h q e in
      let from = join_host_port host port in
      let whole =
        entry-add_address_mapping network from to host port network (join_host_port dest port) m
          parts in
      let by_port = entry-add_address_mapping network from to host port network port m parts in
      rw
        (
          last_port-join dest port q,
          whole,
          by_port,
          any,
          equal_refl network,
          equal_refl port,
          port_ne_join dest port q,
        )
        refl
