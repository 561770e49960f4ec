-- ===== src/Net/HostPort/Laws.antt =====
-- About net.JoinHostPort, net.SplitHostPort and hostPort of connect.go.
use wirez.Net.HostPort.{join_host_port, split_host_port, host_port, parse_port, port_max}
use wirez.Net.Decimal.{itoa, parse_uint-itoa, has-itoa}
use wirez.Prelude.{
  ℕ, suc, ◌+◌, ◌≤◌, ◌≡◌, refl, sym, ◌∙◌, ap, inl, inr, false, some, [], ◌∷◌, ◌++◌, append_assoc,
  arith, Bytes, length, length-append, drop, take-length, drop-suc-length, has, has-append,
  last_index, last_index-append, index-append, get_or, ==_iff, ◌==◌, Bool-cases,
}
use wirez.Throw.{Result, value, ok}

-- What a host may hold for the joined text to be read back: no bracket.
pub record IsHost (host : Bytes) : Type 0 where
  pub no_open : has b'[' host ≡ false
  pub no_close : has b']' host ≡ false

-- What a port may hold: no colon and no bracket.
pub record IsPort (port : Bytes) : Type 0 where
  pub no_colon : has b':' port ≡ false
  pub no_open : has b'[' port ≡ false
  pub no_close : has b']' port ≡ false

pub itoa-IsPort : (n : ℕ) → IsPort (itoa n)
itoa-IsPort n = record {
  no_colon = has-itoa b':' n refl;
  no_open = has-itoa b'[' n refl;
  no_close = has-itoa b']' n refl;
}

-- A text with no opening bracket does not begin with one.
head_ne_open : (s t : Bytes) → has b'[' s ≡ false → (get_or (s ++ (b':' ∷ t)) 0 0 == b'[') ≡ false
head_ne_open [] t h = refl
head_ne_open (x ∷ xs) t h = ground arith

plain_lem :
    (host port : Bytes)
    → IsHost host
    → IsPort port
    → has b':' host ≡ false
    → split_host_port (host ++ (b':' ∷ port)) ≡ value (host, port)
unfolding split_host_port
plain_lem host port h p c =
    rw (last_index-append b':' host port p.no_colon, head_ne_open host port h.no_open)
      (rw
        (
          take-length host (b':' ∷ port),
          c,
          has-append b'[' host,
          h.no_open,
          p.no_open,
          has-append b']' host,
          h.no_close,
          p.no_close,
          drop-suc-length host b':' port,
        )
        refl)

pub drop_two :
    (xs : Bytes) (c d : ℕ) (ys : Bytes) → drop (suc (suc (length xs))) (xs ++ c ∷ d ∷ ys) ≡ ys
drop_two [] c d ys = refl
drop_two (x ∷ xs) c d ys = drop_two xs c d ys

last_colon :
    (host port : Bytes)
    → has b':' port ≡ false
    → last_index b':' (b'[' ∷ (host ++ (b']' ∷ b':' ∷ port))) ≡ some (suc (suc (length host)))
last_colon host port h =
    ap (λ (s : Bytes). last_index b':' (b'[' ∷ s))
      (sym (append_assoc host (b']' ∷ []) (b':' ∷ port)))
    ∙ last_index-append b':' (b'[' ∷ (host ++ b']' ∷ [])) port h
    ∙ ap (λ (n : ℕ). some (suc n)) (length-append host (b']' ∷ []) ∙ omega arith)

bracketed_lem :
    (host port : Bytes)
    → IsHost host
    → IsPort port
    → split_host_port (b'[' ∷ (host ++ (b']' ∷ b':' ∷ port))) ≡ value (host, port)
unfolding split_host_port
bracketed_lem host port h p =
    let n = length host in
    let behind : suc n + 1 ≡ suc (suc n) = omega arith in
    let inner : (suc n + 1 == length (b'[' ∷ (host ++ (b']' ∷ b':' ∷ port)))) ≡ false =
      ground (arith, length-append host (b']' ∷ b':' ∷ port)) in
    rw (last_colon host port p.no_colon, index-append b']' (b'[' ∷ host) (b':' ∷ port) h.no_close)
      (rw inner (
        rw behind (
          rw
            (
              (==_iff (suc (suc n)) (suc (suc n))).1 refl,
              has-append b'[' host,
              h.no_open,
              p.no_open,
              drop-suc-length host b']' (b':' ∷ port),
              p.no_close,
              take-length host (b']' ∷ b':' ∷ port),
              drop_two host b']' b':' port,
            )
            refl)))

-- net.SplitHostPort reads back what net.JoinHostPort wrote.
pub split_host_port-join_host_port :
    (host port : Bytes)
    → IsHost host
    → IsPort port
    → split_host_port (join_host_port host port) ≡ value (host, port)
unfolding join_host_port
split_host_port-join_host_port host port h p = elim (Bool-cases (has b':' host)) [
  | inl c ↦ rw c (bracketed_lem host port h p)
  | inr c ↦ rw c (plain_lem host port h p c)
]

-- hostPort reads back a joined address: any host without brackets, and a port that fits 16 bits.
pub host_port-join_host_port :
    (host : Bytes) (port : ℕ)
    → IsHost host
    → port ≤ port_max
    → host_port (join_host_port host (itoa port)) ≡ ok (host, port)
unfolding host_port parse_port
host_port-join_host_port host port h le =
    rw
      (
        split_host_port-join_host_port host (itoa port) h (itoa-IsPort port),
        parse_uint-itoa port_max port le,
      )
      refl

-- Two joined addresses are equal only if their hosts and their ports are.
pub join_host_port-injective :
    (h₁ h₂ p₁ p₂ : Bytes)
    → IsHost h₁
    → IsHost h₂
    → IsPort p₁
    → IsPort p₂
    → join_host_port h₁ p₁ ≡ join_host_port h₂ p₂
    → (h₁ ≡ h₂) × (p₁ ≡ p₂)
join_host_port-injective h₁ h₂ p₁ p₂ a b c d e =
    let same : ◌≡◌ {A = Result (Bytes × Bytes)} (value (h₁, p₁)) (value (h₂, p₂)) =
      sym (split_host_port-join_host_port h₁ p₁ a c)
      ∙ ap split_host_port e
      ∙ split_host_port-join_host_port h₂ p₂ b d in
    ground (arith, same)
