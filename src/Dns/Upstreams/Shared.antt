-- ===== src/Dns/Upstreams/Shared.antt =====
-- The queries that serveDNS and serveDNSTCP answer at the same time, all over one dnsUpstreams. A
-- query reads `preferred` at its start and may store it at its end, and between these its rounds
-- and those of the others come in any order. `ask n` is forwardDNS of the n-th query.
pub mod Laws
pub mod Bound
use wirez.Dns.Upstreams.{Upstreams, give_up, prefer, index_of, addr_of}
use wirez.Prelude.{ℕ, suc, Bool, List, [], ◌∷◌, ◌++◌, Bytes, length, ltb, ◌==◌, if◌then◌else◌}
use wirez.Throw.{Error, via, Outcome, ok, throw, panic}

-- A call of forward: not begun, in a round with its start and the errors so far, or returned.
pub data Call : Type 0 where
  waiting : Call
  asking : ℕ → ℕ → List Error → Call
  returned : Outcome Bytes → Call

-- The upstreams, and the call of each query.
pub record Queries : Type 0 where
  pub upstreams : Upstreams
  pub calls : ℕ → Call

-- No call has begun.
abbrev pub unasked : Upstreams → Queries
unasked u = record { upstreams = u; calls = λ _. waiting }

-- `calls[n] = x`.
abbrev pub put : (ℕ → Call) → ℕ → Call → ℕ → Call
put f n x m = if m == n then x else f m

module _ (ask : ℕ → Bytes → Outcome Bytes) where
  -- The end of the round that asked the address `idx`.
  abbrev pub round_end : Upstreams → ℕ → ℕ → ℕ → List Error → Outcome Bytes → Call × Upstreams
  round_end u start i idx errs (ok resp) = (returned (ok resp), prefer u start idx)
  round_end u start i idx errs (throw e) =
      (asking start (suc i) (errs ++ via (addr_of u idx) [] e ∷ []), u)
  round_end u start i idx errs (panic p) = (returned (panic p), u)

  -- One step of a call: reading `preferred`, a round, or the end of the loop.
  unfoldable pub advance : ℕ → Upstreams → Call → Call × Upstreams
  advance n u waiting = (asking u.preferred 0 [], u)
  advance n u (asking start i errs) =
      let idx = index_of u start i in
      if ltb i (length u.addrs)
      then round_end u start i idx errs (ask n (addr_of u idx))
      else (returned (give_up errs), u)
  advance n u (returned r) = (returned r, u)

  abbrev pub step : Queries → ℕ → Queries
  step s n =
      let r = advance n s.upstreams (s.calls n) in
      record { upstreams = r.1; calls = put s.calls n r.0 }

  -- The steps in the order in which they happen: each number is the query that makes a step.
  abbrev pub run : Queries → List ℕ → Queries
  run s [] = s
  run s (n ∷ l) = run (step s n) l
