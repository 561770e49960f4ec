-- ===== src/Dns/Upstreams.antt =====
-- dnsUpstreams: the -D list and the upstream that answered last. `ask` stands for forwardDNS of the
-- query to one address. `preferred` is read once, at the start, and stored once, at the end.
pub mod Failover
pub mod Live
pub mod Shared
use wirez.Prelude.{
  ℕ, zero, suc, ◌+◌, ◌%◌, Bool, Option, none, some, List, [], ◌∷◌, ◌++◌, Bytes, bytes, length,
  get_or, ◌==◌, if◌then◌else◌,
}
use wirez.Throw.{Error, joined, via, Outcome, ok, throw, panic, throw_if, ◌>>=◌, ◌>>◌}

pub record Upstreams : Type 0 where
  pub addrs : List Bytes
  pub preferred : ℕ

-- newDNSUpstreams.
abbrev pub new_upstreams : List Bytes → Upstreams
new_upstreams addrs = record { addrs = addrs; preferred = 0 }

-- errors.Join: nil for no error.
abbrev pub join_errors : List Error → Option Error
join_errors [] = none
join_errors (e ∷ []) = some e
join_errors (e ∷ f ∷ es) = elim (join_errors (f ∷ es)) [
  | none ↦ some e
  | some r ↦ some (joined e r)
]

-- `Throw(errors.Join(errs...)); return nil`
abbrev pub give_up : List Error → Outcome Bytes
give_up errs = throw_if (join_errors errs) >> ok []

-- `if idx != start { u.preferred.Store(int32(idx)) }`
abbrev pub prefer : Upstreams → ℕ → ℕ → Upstreams
prefer u start idx = if idx == start then u else record u { preferred = idx }

-- The address asked in round `i`.
abbrev pub index_of : Upstreams → ℕ → ℕ → ℕ
index_of u start i = (start + i) % length u.addrs

abbrev pub addr_of : Upstreams → ℕ → Bytes
addr_of u idx = get_or u.addrs idx []

module _ (ask : Bytes → Outcome Bytes) where
  -- What one round makes of the answer, with the rest of the loop.
  abbrev pub settle :
      Upstreams
      → ℕ
      → ℕ
      → Outcome Bytes
      → (Error → Outcome Bytes × Upstreams)
      → Outcome Bytes × Upstreams
  settle u start idx (ok resp) rest = (ok resp, prefer u start idx)
  settle u start idx (throw e) rest = rest (via (addr_of u idx) [] e)
  settle u start idx (panic p) rest = (panic p, u)

  -- `for i := range u.addrs`: the rounds left, the round, and the errors so far.
  pub forward_loop : Upstreams → ℕ → ℕ → ℕ → List Error → Outcome Bytes × Upstreams
  forward_loop u start zero i errs = (give_up errs, u)
  forward_loop u start (suc rounds) i errs =
      let idx = index_of u start i in
      settle u start idx (ask (addr_of u idx))
        (λ e. forward_loop u start rounds (suc i) (errs ++ e ∷ []))

  unfoldable pub forward : Upstreams → Outcome Bytes × Upstreams
  unfolding forward_loop
  forward u = forward_loop u u.preferred (length u.addrs) 0 []
