-- ===== src/Route/Dial/Total.antt =====
-- About localForwardingConnector.DialContext of connect.go, on joined addresses.
use wirez.Net.HostPort.{join_host_port, split_host_port}
use wirez.Net.HostPort.Laws.{IsHost, IsPort, split_host_port-join_host_port}
use wirez.Net.Ip.{IpNet, contains, any_contains, to4, is_nil}
use wirez.Net.IpText.{IpText, IpTextLaws}
use wirez.Prelude.{
  ◌≡◌, inl, inr, refl, sym, ap, ◌∙◌, Bool, true, not, ◌||◌, Option, none, some, List, arith, Bytes,
  take, drop, if_both, Bool-cases,
}
use wirez.Route.Dial.{Rules, match_nets, past_nat, past_tun, dial}
use wirez.Route.Dial.Order.{IsNet, contains_nil}
use wirez.Route.Mapper.{map_address}
use wirez.Route.Nat64.{nat64_unmap, nat64_map, low_bytes}
use wirez.Throw.{Result, Outcome, ok, throw, panic, throw2, ◌>>=◌}

-- A NAT64 prefix, if there is one, is a network.
abbrev pub HasNet : Option IpNet → Type 0
HasNet none = Unit
HasNet (some p) = IsNet p

-- The code comes to a result.
abbrev pub IsOk {ℓ} : {A : Type ℓ} → Outcome A → Type ℓ
IsOk {A = A} m = (x : A) × (m ≡ ok x)

bind-IsOk {ℓ κ} :
    {A : Type ℓ} {B : Type κ} (m : Outcome A) (f : A → Outcome B)
    → IsOk m
    → ((a : A) → IsOk (f a))
    → IsOk (m >>= f)
bind-IsOk (ok a) f h g = g a
bind-IsOk (throw e) f (a, h) g = absurd (cc)
bind-IsOk (panic p) f (a, h) g = absurd (cc)

module _ (t : IpText) (laws : IpTextLaws t) (port : Bytes) (q : IsPort port) where
  unmap_total :
      (o : Option IpNet) (v : HasNet o) (host : Bytes)
      → IsHost host
      → (h : Bytes) × IsHost h
        × (nat64_unmap t o (join_host_port host port) ≡ ok (join_host_port h port))
  unfolding nat64_unmap
  unmap_total none v host l = (host, l, refl)
  unmap_total (some p) v host l =
      let split = split_host_port-join_host_port host port l q in
      elim (Bool-cases
        (not (is_nil (to4 (t.parse_ip host))) || not (contains p (t.parse_ip host)))) [
          | inl e ↦ (host, l, rw split (rw e refl))
          | inr e ↦ elim (laws.parse_length host) [
            | inl nil' ↦
                let inside : contains p (t.parse_ip host) ≡ true = ground arith in
                absurd (cc (sym (ap (contains p) nil') ∙ inside, contains_nil p v))
            | inr n ↦
                let low : low_bytes (t.parse_ip host) ≡ ok (take 4 (drop 12 (t.parse_ip host))) =
                  rw n refl in
                (
                  t.ip_string (take 4 (drop 12 (t.parse_ip host))),
                  laws.string_host _,
                  rw split (rw e (rw low refl)),
                )
          ]
        ]

  match_total :
      (nets : List IpNet) (h : Bytes)
      → IsHost h
      → (b : Bool) × (match_nets t nets (join_host_port h port) ≡ ok b)
  unfolding match_nets
  match_total nets h l =
      (any_contains nets (t.parse_ip h), rw (split_host_port-join_host_port h port l q) refl)

  pub map_total :
      (o : Option IpNet) (h : Bytes) → IsHost h → IsOk (nat64_map t o (join_host_port h port))
  unfolding nat64_map
  map_total none h l = (join_host_port h port, refl)
  map_total (some p) h l =
      bind-IsOk (throw2 (split_host_port (join_host_port h port))) _
        ((h, port), rw (split_host_port-join_host_port h port l q) refl)
        (λ (host, port').
          if_both IsOk (is_nil (to4 (t.parse_ip host))) (λ e. (_, refl)) (λ e. (_, refl)))

  module _ {ℓ} {A : Type ℓ} (d s : Bytes → Bytes → Result A) (r : Rules) (network : Bytes) where
    past_total :
        (h : Bytes) (o : Option Bytes)
        → IsHost h
        → IsOk (past_nat t d s r network (join_host_port h port) o)
    unfolding past_nat past_tun
    past_total h (some to) l = (d network to, refl)
    past_total h none l =
        bind-IsOk (match_nets t r.tun (join_host_port h port)) _ (match_total r.tun h l) λ b.
          if_both IsOk b (λ e. (_, refl))
            λ e.
              bind-IsOk (match_nets t r.bypass (join_host_port h port)) _ (match_total r.bypass h l)
                λ c.
                  if_both IsOk c
                    (λ e'.
                      bind-IsOk (nat64_map t r.nat64 (join_host_port h port)) _
                        (map_total r.nat64 h l) (λ to. (d network to, refl)))
                    (λ e'. (s network (join_host_port h port), refl))

    -- With a NAT64 prefix that is a network, or none, every dial of a joined host and port comes to
    -- a result of one of the two connectors or a refusal: it neither throws nor panics.
    pub dial_total :
        HasNet r.nat64
        → (host : Bytes) → IsHost host
        → IsOk (dial t d s r network (join_host_port host port))
    unfolding dial
    dial_total v host l =
        let (h, k, e) = unmap_total r.nat64 v host l in
        let (x, f) = past_total h (map_address network (join_host_port h port) r.nat) k in
        (x, rw e f)
