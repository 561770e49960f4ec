-- ===== src/Socks/Associate/Relay.antt =====
-- About associate of socks5.go: the address at which the relay is dialed.
use wirez.Net.Decimal.{itoa}
use wirez.Net.HostPort.{join_host_port}
use wirez.Net.HostPort.Laws.{IsHost, IsPort, split_host_port-join_host_port}
use wirez.Net.Ip.{v4_in_v6, is_nil, all_zero, is_unspecified, to4, to4_long}
use wirez.Net.IpText.{IpText, IpTextLaws}
use wirez.Prelude.{
  ℕ, arith, zero, suc, ◌≡◌, ◌⊎◌, inl, inr, refl, ap, ◌∙◌, not, ◌&&◌, true, false, [], ◌∷◌, ◌++◌,
  Bytes, length, Bool-cases,
}
use wirez.Socks.Associate.{relay_addr}
use wirez.Throw.{ok}

abbrev pub zeros : ℕ → Bytes
zeros zero = []
zeros (suc n) = 0 ∷ zeros n

-- The two addresses, in 16 bytes, that name no host: :: and 0.0.0.0.
abbrev pub IsAny : Bytes → Type 0
IsAny ip = (ip ≡ zeros 16) ⊎ (ip ≡ v4_in_v6 ++ zeros 4)

-- The host to dial for a relay, of a proxy at one host that answers with another: the proxy's own
-- if the answer names no host, and the answer's otherwise.
pub data RelayHost (t : IpText) (proxy_host bind_host : Bytes) : Bytes → Type 0 where
  at_proxy : IsAny (t.parse_ip bind_host) → RelayHost t proxy_host bind_host proxy_host
  as_named : ¬ IsAny (t.parse_ip bind_host) → RelayHost t proxy_host bind_host bind_host

all_zero-zeros : (s : Bytes) → all_zero s ≡ true → s ≡ zeros (length s)
all_zero-zeros [] h = refl
all_zero-zeros (b ∷ s) h = ground (arith, all_zero-zeros s)

IsAny-is_unspecified : (ip : Bytes) → IsAny ip → (not (is_nil ip) && is_unspecified ip) ≡ true
unfolding is_unspecified to4
IsAny-is_unspecified ip (inl e) = rw e refl
IsAny-is_unspecified ip (inr e) = rw e refl

is_unspecified-IsAny : (ip : Bytes) → length ip ≡ 16 → is_unspecified ip ≡ true → IsAny ip
unfolding is_unspecified
is_unspecified-IsAny ip l h = elim (to4_long ip l) [
  | inl e ↦ inl (all_zero-zeros ip (rw (e, l) at h) ∙ ap zeros l)
  | inr (l₄, e) ↦ elim (Bool-cases (all_zero (to4 ip))) [
    | inl z ↦ inr (e ∙ ap (λ x. v4_in_v6 ++ x) (all_zero-zeros (to4 ip) z ∙ ap zeros l₄))
    | inr z ↦ inl (all_zero-zeros ip (rw (l₄, z, l) at h) ∙ ap zeros l)
  ]
]

specified :
    (t : IpText)
    → IpTextLaws t
    → (s : Bytes) → ¬ IsAny (t.parse_ip s)
    → (not (is_nil (t.parse_ip s)) && is_unspecified (t.parse_ip s)) ≡ false
specified t laws s named = elim (laws.parse_length s) [
  | inl e ↦ rw e refl
  | inr l ↦ elim (Bool-cases (is_unspecified (t.parse_ip s))) [
    | inl u ↦ absurd (named (is_unspecified-IsAny (t.parse_ip s) l u))
    | inr u ↦ rw u (ground arith)
  ]
]

-- The relay of a proxy whose own address is a host and a port is dialed at that host, with the port
-- that the proxy names.
pub relay_addr-RelayHost :
    (t : IpText) (laws : IpTextLaws t) (proxy_host proxy_port bind_host host : Bytes)
    (bind_port : ℕ)
    → IsHost proxy_host
    → IsPort proxy_port
    → RelayHost t proxy_host bind_host host
    → relay_addr t (join_host_port proxy_host proxy_port) (bind_host, bind_port)
      ≡ ok (join_host_port host (itoa bind_port))
relay_addr-RelayHost t laws p port b _ n h q (at_proxy a) =
    rw (IsAny-is_unspecified (t.parse_ip b) a, split_host_port-join_host_port p port h q) refl
relay_addr-RelayHost t laws p port b _ n h q (as_named a) = rw (specified t laws b a) refl
