-- ===== src/Config/Mapping/Show.antt =====
-- About parseMapping of config.go, on mappings written in full, and the table that it feeds.
use wirez.Config.Mapping.Laws.{
  IsMappable, spell, split_absent, split-append, take_last_port-append, take_last_host-behind,
  take_last_host-spell,
}
use wirez.Route.Mapper.{Mapper}
use wirez.Config.Mapping.{split, is_network, parse_addresses, parse_mapping}
use wirez.Net.Decimal.{itoa, has-itoa}
use wirez.Net.HostPort.{join_host_port, port_max}
use wirez.Net.IpText.{IpText}
use wirez.Prelude.{
  ℕ, ◌≤◌, ◌≡◌, ◌≢◌, refl, ap, ◌∙◌, inl, inr, true, false, [], ◌∷◌, ◌++◌, arith, Bytes, bytes, equal,
  equal_iff, has, has-append, Bool-cases,
}
use wirez.Throw.{ok}

-- The addresses of a mapping, as -L spells them.
abbrev pub show_addresses : Bytes → ℕ → Bytes → ℕ → Bytes
show_addresses from from_port target target_port =
    ((spell from ++ b':' ∷ itoa from_port) ++ b':' ∷ spell target) ++ b':' ∷ itoa target_port

spell_slash : (t : IpText) (h : Bytes) → IsMappable t h → has b'/' (spell h) ≡ false
spell_slash t h m = elim (Bool-cases (has b':' h)) [
  | inl c ↦ rw (c, has-append b'/' h (b']' ∷ []), m.no_slash) refl
  | inr c ↦ rw (c, m.no_slash) refl
]

show_slash :
    (t : IpText) (from target : Bytes) (fp tp : ℕ)
    → IsMappable t from
    → IsMappable t target
    → has b'/' (show_addresses from fp target tp) ≡ false
show_slash t from target fp tp m n =
    has-append b'/' ((spell from ++ b':' ∷ itoa fp) ++ b':' ∷ spell target) (b':' ∷ itoa tp)
    ∙ rw
        (
          has-append b'/' (spell from ++ b':' ∷ itoa fp) (b':' ∷ spell target),
          has-append b'/' (spell from) (b':' ∷ itoa fp),
          spell_slash t from m,
          spell_slash t target n,
          has-itoa b'/' fp refl,
          has-itoa b'/' tp refl,
        )
        refl

parse_addresses-show :
    (t : IpText) (mapping from target : Bytes) (fp tp : ℕ)
    → IsMappable t from
    → IsMappable t target
    → equal target [] ≡ false
    → fp ≤ port_max
    → tp ≤ port_max
    → parse_addresses t mapping (show_addresses from fp target tp)
      ≡ ok (join_host_port from (itoa fp), join_host_port target (itoa tp))
unfolding parse_addresses equal
parse_addresses-show t mapping from target fp tp m n ne le le' =
    rw
      (
        take_last_port-append ((spell from ++ b':' ∷ itoa fp) ++ b':' ∷ spell target) tp le',
        take_last_host-behind t (spell from ++ b':' ∷ itoa fp) target n,
        ne,
        take_last_port-append (spell from) fp le,
        take_last_host-spell t from m,
      )
      refl

network_slash : (n : Bytes) → is_network n ≡ true → has b'/' n ≡ false
network_slash n h = elim (Bool-cases (equal n (bytes "tcp"))) [
  | inl e ↦ rw ((equal_iff n (bytes "tcp")).0 e) refl
  | inr e ↦ rw ((equal_iff n (bytes "udp")).0 (ground arith)) refl
]

-- A mapping in full, with tcp or udp, ports below 65536, a target that is not empty, and hosts with
-- no bracket or slash and a colon only in an address literal, is read as its network and its two
-- addresses; the source host may be empty.
pub parse_mapping-show :
    (t : IpText) (from target network : Bytes) (fp tp : ℕ)
    → IsMappable t from
    → IsMappable t target
    → target ≢ []
    → fp ≤ port_max
    → tp ≤ port_max
    → is_network network ≡ true
    → parse_mapping t (show_addresses from fp target tp ++ b'/' ∷ network)
      ≡ ok (network, join_host_port from (itoa fp), join_host_port target (itoa tp))
unfolding parse_mapping
parse_mapping-show t from target network fp tp m n ne le le' net =
    let text = show_addresses from fp target tp in
    let parts : split b'/' (text ++ b'/' ∷ network) ≡ text ∷ network ∷ [] =
      split-append b'/' text network (show_slash t from target fp tp m n)
      ∙ ap (◌∷◌ text) (split_absent b'/' network (network_slash network net)) in
    let filled : equal target [] ≡ false = ground (arith, equal_iff target []) in
    rw
      (
        parts,
        net,
        parse_addresses-show t (text ++ b'/' ∷ network) from target fp tp m n filled le le',
      )
      refl
