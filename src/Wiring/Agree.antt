-- ===== src/Wiring/Agree.antt =====
-- About the policy of the resolver and the rules for a connection, which runRun makes of one list of
-- bypass networks and one NAT64 prefix.
use mathlib.Core.Path.{subst}
use wirez.Route.Mapper.{map_address}
use wirez.Config.Proxies.{Url}
use wirez.Dns.Policy.{policy_ip}
use wirez.Net.HostPort.{join_host_port, split_host_port}
use wirez.Net.HostPort.Laws.{IsPort, split_host_port-join_host_port}
use wirez.Net.Ip.{v4_in_v6, IpNet, contains, any_contains, contains-to4, to4, to4_long, is_nil}
use wirez.Net.IpText.{IpText, IpTextLaws}
use wirez.Prelude.{
  IsByte, All-drop, length-drop, ℕ, ◌≡◌, refl, sym, ap, ◌∙◌, inl, inr, true, false, Option, none,
  some, List, [], ◌∷◌, ◌++◌, ◌||◌, not, Bytes, length, take, drop, AreBytes, arith, Bool-cases,
  if◌then◌else◌,
}
use wirez.Route.Dial.{match_nets, dial}
use wirez.Route.Dial.Order.{direct, proxied, dial-outcome}
use wirez.Route.Dial.Total.{map_total}
use wirez.Route.Nat64.{nat64_map, nat64_unmap}
use wirez.Throw.{bind-ok, ok-injective, value, Result, ok}
use wirez.Wiring.{parse_flags, tun_networks, parse_bypass_nets, Flags, Wired, wire}

any_contains-to4 :
    (ns : List IpNet) (ip : Bytes)
    → length ip ≡ 4
    → any_contains ns (v4_in_v6 ++ ip) ≡ any_contains ns ip
unfolding any_contains
any_contains-to4 [] ip l = refl
any_contains-to4 (n ∷ ns) ip l = rw (contains-to4 n ip l, any_contains-to4 ns ip l)

four : (xs : Bytes) → length xs ≡ 4 → take 4 xs ≡ xs
four (a ∷ b ∷ c ∷ d ∷ []) l = refl
four _ l = absurd (omega arith)

module _ (t : IpText) (laws : IpTextLaws t) (port : Bytes) (q : IsPort port) (ip : Bytes)
    (l : length ip ≡ 16) (h : AreBytes ip) where
  -- The destination of a connection to the address.
  abbrev pub destination : Bytes
  destination = join_host_port (t.ip_string ip) port

  split_text :
      (x : Bytes)
      → split_host_port (join_host_port (t.ip_string x) port) ≡ value (t.ip_string x, port)
  split_text x = split_host_port-join_host_port (t.ip_string x) port (laws.string_host x) q

  -- What the bypass networks say of the destination when it is taken as it stands.
  match_whole : (ns : List IpNet) → match_nets t ns destination ≡ ok (any_contains ns ip)
  unfolding match_nets
  match_whole ns =
      rw (split_text ip) (ap (λ x. ok (any_contains ns x)) (laws.parse_string16 ip h l))

  match_low :
      (ns : List IpNet) (ip4 : Bytes)
      → length ip4 ≡ 4
      → AreBytes ip4
      → match_nets t ns (join_host_port (t.ip_string ip4) port) ≡ ok (any_contains ns ip4)
  unfolding match_nets
  match_low ns ip4 k b = rw (split_text ip4) (
      ap (λ x. ok (any_contains ns x)) (laws.parse_string4 ip4 b k)
      ∙ ap ok (any_contains-to4 ns ip4 k))

  unmap_is :
      (p : IpNet)
      → nat64_unmap t (some p) destination ≡ (
          if not (is_nil (to4 ip)) || not (contains p ip)
          then ok destination
          else ok (join_host_port (t.ip_string (take 4 (drop 12 ip))) port))
  unfolding nat64_unmap
  unmap_is p = rw (split_text ip) (rw (laws.parse_string16 ip h l) (rw l refl))

  low_is : take 4 (drop 12 ip) ≡ drop 12 ip
  low_is = four (drop 12 ip) (omega (arith, length-drop 12 ip))

  -- The destination is taken as it stands, or unmapped.
  as_it_stands :
      (p : IpNet) (ns : List IpNet) (a : Bytes)
      → nat64_unmap t (some p) destination ≡ ok a
      → (not (is_nil (to4 ip)) || not (contains p ip)) ≡ true
      → match_nets t ns a ≡ ok (any_contains ns ip)
  as_it_stands p ns a e test =
      let whole : destination ≡ a = ok-injective (sym (unmap_is p ∙ rw test refl) ∙ e) in
      ap (match_nets t ns) (sym whole) ∙ match_whole ns

  unmapped :
      (p : IpNet) (ns : List IpNet) (a : Bytes)
      → nat64_unmap t (some p) destination ≡ ok a
      → (not (is_nil (to4 ip)) || not (contains p ip)) ≡ false
      → match_nets t ns a ≡ ok (any_contains ns (take 4 (drop 12 ip)))
  unmapped p ns a e test =
      let low : join_host_port (t.ip_string (take 4 (drop 12 ip))) port ≡ a =
        ok-injective (sym (unmap_is p ∙ rw test refl) ∙ e) in
      ap (match_nets t ns) (sym low)
      ∙ match_low ns (take 4 (drop 12 ip)) (ap length low_is ∙ omega (arith, length-drop 12 ip))
          (subst AreBytes (sym low_is) (All-drop IsByte 12 ip h))

  -- The address that the policy compares, if the prefix contains it.
  low_mapped : length (to4 ip) ≡ 4 → ip ≡ v4_in_v6 ++ to4 ip → take 4 (drop 12 ip) ≡ to4 ip
  low_mapped k same = low_is ∙ ap (drop 12) same

  agrees_with :
      (p : IpNet) (ns : List IpNet) (a : Bytes)
      → nat64_unmap t (some p) destination ≡ ok a
      → match_nets t ns a ≡ ok (any_contains ns (policy_ip (some p) ip))
  unfolding policy_ip
  agrees_with p ns a e = elim (Bool-cases (contains p ip)) [
    | inr out ↦ as_it_stands p ns a e (ground arith) ∙ rw out refl
    | inl into ↦ elim (to4_long ip l) [
      | inl nil' ↦ unmapped p ns a e (rw (nil', into) refl) ∙ rw into refl
      | inr (k, same) ↦
          as_it_stands p ns a e (ground arith)
          ∙ ap (λ x. ok (any_contains ns x)) same
          ∙ ap ok (any_contains-to4 ns (to4 ip) k ∙ ap (any_contains ns) (sym (low_mapped k same)))
          ∙ rw into refl
    ]
  ]

  -- The bypass networks say of the unmapped destination what they say of the address as the policy
  -- compares it.
  agrees :
      (o : Option IpNet) (ns : List IpNet) (a : Bytes)
      → nat64_unmap t o destination ≡ ok a
      → match_nets t ns a ≡ ok (any_contains ns (policy_ip o ip))
  unfolding nat64_unmap policy_ip
  agrees none ns a e = ap (match_nets t ns) (sym (ok-injective e)) ∙ match_whole ns
  agrees (some p) ns a e = agrees_with p ns a e

  -- The unmapped destination is a joined host and port.
  joined :
      (o : Option IpNet) (a : Bytes)
      → nat64_unmap t o destination ≡ ok a
      → (x : Bytes) × (join_host_port (t.ip_string x) port ≡ a)
  unfolding nat64_unmap
  joined none a e = (ip, ok-injective e)
  joined (some p) a e = elim (Bool-cases (not (is_nil (to4 ip)) || not (contains p ip))) [
    | inl test ↦ (ip, ok-injective (sym (unmap_is p ∙ rw test refl) ∙ e))
    | inr test ↦ (take 4 (drop 12 ip), ok-injective (sym (unmap_is p ∙ rw test refl) ∙ e))
  ]

-- The parts that runRun makes share the bypass networks and the NAT64 prefix.
wire-shares :
    (t : IpText) (url_parse : Bytes → Result Url) (parse_cidr : Bytes → Result (Bytes × IpNet))
    (size : Bytes → ℕ × ℕ) (f : Flags) (w : Wired)
    → wire t url_parse parse_cidr size f ≡ ok w
    → (w.rules.bypass ≡ w.policy.allow) × (w.rules.nat64 ≡ w.policy.nat64)
unfolding wire
wire-shares t url_parse parse_cidr size f w e =
    let (p, e₁, f₁) = bind-ok (parse_flags t url_parse parse_cidr size f) _ e in
    let (tun, e₂, f₂) = bind-ok (parse_bypass_nets parse_cidr size (tun_networks f.ipv6)) _ f₁ in
    let made = ok-injective f₂ in
    (
      sym (ap (λ (x : Wired). x.rules.bypass) made) ∙ ap (λ (x : Wired). x.policy.allow) made,
      sym (ap (λ (x : Wired). x.rules.nat64) made) ∙ ap (λ (x : Wired). x.policy.nat64) made,
    )

module _ (t : IpText) (laws : IpTextLaws t) (url_parse : Bytes → Result Url)
    (parse_cidr : Bytes → Result (Bytes × IpNet)) (size : Bytes → ℕ × ℕ) where
  -- The resolver and the rules for connections that runRun makes of its flags agree on an IPv6
  -- address: a connection to it that no -L mapping takes up and that does not go to the TUN network,
  -- NAT64 undone, is dialed directly, through NAT64, if the address is one for which the
  -- policy lets an AAAA answer through, and goes to the proxies if it is not.
  pub wire-agrees :
      {A : Type 0} (f : Flags) (w : Wired) (d s : Bytes → Bytes → Result A)
      (network port ip a : Bytes)
      → wire t url_parse parse_cidr size f ≡ ok w
      → IsPort port
      → length ip ≡ 16
      → AreBytes ip
      → nat64_unmap t w.rules.nat64 (join_host_port (t.ip_string ip) port) ≡ ok a
      → map_address network a w.rules.nat ≡ none
      → match_nets t w.rules.tun a ≡ ok false
      → (to : Bytes) × (nat64_map t w.rules.nat64 a ≡ ok to)
        × (dial t d s w.rules network (join_host_port (t.ip_string ip) port)
            ≡ ok (
                if any_contains w.policy.allow (policy_ip w.policy.nat64 ip)
                then d network to
                else s network a))
  wire-agrees f w d s network port ip a e q l h u n m =
      let (allow, nat64) = wire-shares t url_parse parse_cidr size f w e in
      let allowed = any_contains w.policy.allow (policy_ip w.policy.nat64 ip) in
      let same : any_contains w.rules.bypass (policy_ip w.rules.nat64 ip) ≡ allowed =
        ap (λ ns. any_contains ns (policy_ip w.rules.nat64 ip)) allow
        ∙ ap (λ o. any_contains w.policy.allow (policy_ip o ip)) nat64 in
      let sure = agrees t laws port q ip l h w.rules.nat64 w.rules.bypass a u ∙ ap ok same in
      let (x, made) = joined t laws port q ip l h w.rules.nat64 a u in
      let (to, mapped') =
        map_total t laws port q w.rules.nat64 (t.ip_string x) (laws.string_host x) in
      let onto = ap (nat64_map t w.rules.nat64) (sym made) ∙ mapped' in
      elim (Bool-cases allowed) [
        | inl yes' ↦ (
          to,
          onto,
          dial-outcome t d s w.rules network (destination t laws port q ip l h) a u
                (direct to n m (sure ∙ ap ok yes') onto)
              ∙ rw yes' refl,
        )
        | inr no' ↦ (
          to,
          onto,
          dial-outcome t d s w.rules network (destination t laws port q ip l h) a u
                (proxied n m (sure ∙ ap ok no'))
              ∙ rw no' refl,
        )
      ]
