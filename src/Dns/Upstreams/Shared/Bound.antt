-- ===== src/Dns/Upstreams/Shared/Bound.antt =====
-- About the queries that share the upstreams of resolver.go: how soon each returns.
use wirez.Dns.Upstreams.{Upstreams, index_of, addr_of}
use wirez.Dns.Upstreams.Shared.{
  Call, waiting, asking, returned, Queries, unasked, round_end, advance, step, run,
}
use wirez.Prelude.{
  inr, inl, ℕ, ◌+◌, ◌-◌, ◌≤◌, ◌<◌, ◌≡◌, refl, sym, ◌∙◌, ap, List, [], ◌∷◌, arith, Bytes, length,
  ltb, ltb→lt, ==_iff, ◌==◌, Bool-cases, if_both, if◌then◌else◌,
}
use mathlib.Core.Path.{subst}
use wirez.Throw.{Error, Outcome, ok, throw, panic}

-- The steps that a call has left, where the list has `k` upstreams.
steps_left : ℕ → Call → ℕ
steps_left k waiting = k + 2
steps_left k (asking p i errs) = k - i + 1
steps_left k (returned r) = 0

-- How often a query makes a step.
abbrev pub count : ℕ → List ℕ → ℕ
count n [] = 0
count n (m ∷ l) = (if n == m then 1 else 0) + count n l

module _ (ask : ℕ → Bytes → Outcome Bytes) where
  round-steps_left :
      (n : ℕ) (u : Upstreams) (start i idx : ℕ) (errs : List Error) (m : Outcome Bytes)
      → i < length u.addrs
      → (steps_left (length u.addrs) (round_end ask u start i idx errs m).0 ≤ length u.addrs - i)
        × ((round_end ask u start i idx errs m).1.addrs ≡ u.addrs)
  unfolding steps_left
  round-steps_left n u start i idx errs (ok x) lt = (
    omega arith,
    if_both (λ (w : Upstreams). w.addrs ≡ u.addrs) (idx == start) (λ e. refl) (λ e. refl),
  )
  round-steps_left n u start i idx errs (throw x) lt = (omega arith, refl)
  round-steps_left n u start i idx errs (panic x) lt = (omega arith, refl)

  advance-steps_left :
      (n : ℕ) (u : Upstreams) (c : Call)
      → (steps_left (length u.addrs) (advance ask n u c).0 ≤ steps_left (length u.addrs) c - 1)
        × ((advance ask n u c).1.addrs ≡ u.addrs)
  unfolding advance steps_left
  advance-steps_left n u waiting = (omega arith, refl)
  advance-steps_left n u (asking start i errs) =
      let idx : ℕ = index_of u start i in
      if_both
        (λ (x : Call × Upstreams).
          (steps_left (length u.addrs) x.0 ≤ length u.addrs - i + 1 - 1) × (x.1.addrs ≡ u.addrs))
        (ltb i (length u.addrs))
        (λ e.
          let b = round-steps_left n u start i idx errs (ask n (addr_of u idx)) (ltb→lt _ _ e) in
          (omega (arith, b.0), b.1))
        (λ e. (omega arith, refl))
  advance-steps_left n u (returned r) = (omega arith, refl)

  step-steps_left :
      (k n m : ℕ) (s : Queries)
      → length s.upstreams.addrs ≡ k
      → (length (step ask s m).upstreams.addrs ≡ k)
        × (steps_left k ((step ask s m).calls n)
            ≤ steps_left k (s.calls n) - (if n == m then 1 else 0))
  step-steps_left k n m s e =
      let r : Call × Upstreams = advance ask m s.upstreams (s.calls m) in
      let b : (steps_left (length s.upstreams.addrs) r.0
            ≤ steps_left (length s.upstreams.addrs) (s.calls m) - 1)
          × (r.1.addrs ≡ s.upstreams.addrs) =
        advance-steps_left m s.upstreams (s.calls m) in
      (
        ap length b.1 ∙ e,
        elim (Bool-cases (n == m)) [
          | inl same ↦ rw same (
              subst (λ j. steps_left k r.0 ≤ steps_left k (s.calls j) - 1)
                (sym ((==_iff n m).0 same))
                (subst (λ j. steps_left j r.0 ≤ steps_left j (s.calls m) - 1) e b.0))
          | inr other ↦ rw other (omega arith)
        ],
      )

  run-steps_left :
      (k n : ℕ) (l : List ℕ) (s : Queries)
      → length s.upstreams.addrs ≡ k
      → steps_left k (s.calls n) ≤ count n l
      → steps_left k ((run ask s l).calls n) ≡ 0
  run-steps_left k n [] s e le = omega arith
  run-steps_left k n (m ∷ l) s e le =
      let b = step-steps_left k n m s e in
      run-steps_left k n l (step ask s m) b.0 (omega (arith, b.1))

returned_of : (k : ℕ) (c : Call) → steps_left k c ≡ 0 → (r : Outcome Bytes) × (c ≡ returned r)
unfolding steps_left
returned_of k waiting e = absurd (omega arith)
returned_of k (asking p i errs) e = absurd (omega arith)
returned_of k (returned r) e = (r, refl)

-- Whatever steps the other queries make and whenever they make them, a query that makes two steps
-- more than there are upstreams has returned, with a result or with what was thrown.
pub run_returns :
    (ask : ℕ → Bytes → Outcome Bytes) (u : Upstreams) (n : ℕ) (l : List ℕ)
    → length u.addrs + 2 ≤ count n l
    → (r : Outcome Bytes) × ((run ask (unasked u) l).calls n ≡ returned r)
unfolding steps_left
run_returns ask u n l h =
    returned_of (length u.addrs) _ (run-steps_left ask (length u.addrs) n l (unasked u) refl h)
