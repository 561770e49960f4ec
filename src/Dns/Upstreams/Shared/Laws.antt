-- ===== src/Dns/Upstreams/Shared/Laws.antt =====
-- About the queries that share the upstreams of resolver.go: what each returns, and when.
use wirez.Dns.Upstreams.{Upstreams, give_up, prefer, index_of, addr_of, forward_loop, forward}
use wirez.Dns.Upstreams.Failover.{loop_answer, loop_throw, loop_panic}
use wirez.Dns.Upstreams.Shared.{
  unasked, Call, waiting, asking, returned, Queries, round_end, advance, step, run,
}
use wirez.Prelude.{
  ℕ, zero, suc, ◌+◌, ◌<◌, ◌≡◌, inl, inr, refl, sym, ◌∙◌, ap, List, [], ◌∷◌, arith, Bytes, length,
  lt→ltb, ==_iff, le→ltb, ◌==◌, Bool-cases, if_both,
}
use mathlib.Core.Path.{subst}
use native.Mathlib.Nat.{mod-lt}
use wirez.Throw.{Error, Outcome, ok, Outcome-cases}

module _ (ask : ℕ → Bytes → Outcome Bytes) (first : Upstreams) where
  -- The upstreams with another preferred one.
  abbrev pub at : ℕ → Upstreams
  at p = record first { preferred = p }

  -- A preferred upstream: the first one, or one in range that answered some query.
  pub data IsPreferable (p : ℕ) : Type 0 where
    was_first : p ≡ first.preferred → IsPreferable p
    has_answered :
        (m : ℕ) (resp : Bytes)
        → p < length first.addrs
        → ask m (addr_of first p) ≡ ok resp
        → IsPreferable p

  -- The answer of a call that has the upstreams for itself.
  abbrev pub alone : ℕ → ℕ → Outcome Bytes
  alone n p = (forward (ask n) (at p)).0

  -- The same from a round on, for the rounds left.
  abbrev left : ℕ → ℕ → ℕ → ℕ → List Error → Outcome Bytes
  left n p rounds i errs = (forward_loop (ask n) (at p) p rounds i errs).0

  data Fits (n : ℕ) : Call → Type 0 where
    waits : Fits n waiting
    asks :
        {p i : ℕ} {errs : List Error} (rounds : ℕ)
        → IsPreferable p
        → i + rounds ≡ length first.addrs
        → left n p rounds i errs ≡ alone n p
        → Fits n (asking p i errs)
    ends : {p : ℕ} {r : Outcome Bytes} → IsPreferable p → alone n p ≡ r → Fits n (returned r)

  -- A call after a step of its own, and the upstreams that it leaves.
  record Goes (n : ℕ) (r : Call × Upstreams) : Type 0 where
    fits : Fits n r.0
    now : ℕ
    are : r.1 ≡ at now
    may : IsPreferable now

  opens : (n p : ℕ) → left n p (length first.addrs) 0 [] ≡ alone n p
  unfolding forward
  opens n p = refl

  prefer-Goes :
      (n p start idx : ℕ) {r : Outcome Bytes}
      → Fits n (returned r)
      → IsPreferable p
      → IsPreferable idx
      → Goes n (returned r, prefer (at p) start idx)
  prefer-Goes n p start idx f at_p at_idx = elim (Bool-cases (idx == start)) [
    | inl e ↦ rw e record { fits = f; now = p; are = refl; may = at_p }
    | inr e ↦ rw e record { fits = f; now = idx; are = refl; may = at_idx }
  ]

  -- What a round comes to is what the loop, alone, comes to.
  first_of :
      {m : Outcome Bytes} (n start rounds i : ℕ) (errs : List Error) (r : Outcome Bytes × Upstreams)
      → left n start rounds i errs ≡ m
      → forward_loop (ask n) (at start) start rounds i errs ≡ r
      → m ≡ r.0
  first_of n start rounds i errs r same e = sym same ∙ ap (λ (x : Outcome Bytes × Upstreams). x.0) e

  round-Goes :
      (n p start rounds i : ℕ) (errs : List Error)
      → IsPreferable p
      → IsPreferable start
      → i + suc rounds ≡ length first.addrs
      → left n start (suc rounds) i errs ≡ alone n start
      → Goes n (
          round_end ask
            (at p)
            start
            i
            (index_of first start i)
            errs
            (ask n (addr_of first (index_of first start i))))
  round-Goes n p start rounds i errs at_p at_start all same =
      elim (Outcome-cases (ask n (addr_of first (index_of first start i)))) [
        | inl (resp, e) ↦ rw e (
            prefer-Goes n p start (index_of first start i)
              (ends at_start (came (loop_answer (ask n) (at start) rounds i errs e))) at_p
              (has_answered n resp (mod-lt (start + i) (omega arith)) e))
        | inr (inl (x, e)) ↦ rw e record {
          fits =
              asks rounds at_start (omega arith)
                (sym (came (loop_throw (ask n) (at start) rounds i errs e)));
          now = p;
          are = refl;
          may = at_p;
        }
        | inr (inr (x, e)) ↦ rw e record {
          fits = ends at_start (came (loop_panic (ask n) (at start) rounds i errs e));
          now = p;
          are = refl;
          may = at_p;
        }
      ]
    where
      came :
          {r : Outcome Bytes × Upstreams}
          → forward_loop (ask n) (at start) start (suc rounds) i errs ≡ r
          → alone n start ≡ r.0
      came {r} e = first_of n start (suc rounds) i errs r same e

  advance-Goes : (n p : ℕ) (c : Call) → IsPreferable p → Fits n c → Goes n (advance ask n (at p) c)
  unfolding advance forward_loop
  advance-Goes n p _ at_p waits = record {
    fits = asks (length first.addrs) at_p (omega arith) (opens n p);
    now = p;
    are = refl;
    may = at_p;
  }
  advance-Goes n p _ at_p (asks {p = start} {i = i} {errs = errs} zero at_start all same) =
      rw (le→ltb i (length first.addrs) (omega arith)) record {
        fits = ends at_start (first_of n start zero i errs (give_up errs, at start) same refl);
        now = p;
        are = refl;
        may = at_p;
      }
  advance-Goes n p _ at_p (asks {p = start} {i = i} {errs = errs} (suc rounds) at_start all same) =
      rw (lt→ltb i (length first.addrs) (omega arith))
        (round-Goes n p start rounds i errs at_p at_start all same)
  advance-Goes n p _ at_p (ends at_start same) = record {
    fits = ends at_start same;
    now = p;
    are = refl;
    may = at_p;
  }

  -- What holds of the shared upstreams and the calls at any time.
  record IsSteady (s : Queries) : Type 0 where
    now : ℕ
    are : s.upstreams ≡ at now
    may : IsPreferable now
    fits : (n : ℕ) → Fits n (s.calls n)

  step-IsSteady : (s : Queries) (n : ℕ) → IsSteady s → IsSteady (step ask s n)
  step-IsSteady s n v =
      let g : Goes n (advance ask n s.upstreams (s.calls n)) =
        subst (λ u. Goes n (advance ask n u (s.calls n))) (sym v.are)
          (advance-Goes n v.now (s.calls n) v.may (v.fits n)) in
      record {
        now = g.now;
        are = g.are;
        may = g.may;
        fits = λ m.
            if_both (λ c. Fits m c) (m == n)
              (λ e.
                subst (λ k. Fits k (advance ask n s.upstreams (s.calls n)).0)
                  (sym ((==_iff m n).0 e)) g.fits)
              (λ _. v.fits m);
      }

  run-IsSteady : (s : Queries) (l : List ℕ) → IsSteady s → IsSteady (run ask s l)
  run-IsSteady s [] v = v
  run-IsSteady s (n ∷ l) v = run-IsSteady (step ask s n) l (step-IsSteady s n v)

  Fits-alone :
      (n : ℕ) (c : Call) (r : Outcome Bytes)
      → Fits n c
      → c ≡ returned r
      → (p : ℕ) × IsPreferable p × (alone n p ≡ r)
  Fits-alone n _ r (ends {p = p} at_p same) e = (p, at_p, same ∙ cc e)
  Fits-alone n _ r waits e = absurd (cc)
  Fits-alone n _ r (asks rounds at_p all same) e = absurd (cc)

  -- Whatever the other queries do in between, a call that has returned has what forward alone
  -- gives with some preferred upstream, and that one is the first preferred upstream or, in range,
  -- has answered a query.
  pub run-alone :
      (l : List ℕ) (n : ℕ) (r : Outcome Bytes)
      → (run ask (unasked first) l).calls n ≡ returned r
      → (p : ℕ) × IsPreferable p × (alone n p ≡ r)
  run-alone l n r e = Fits-alone n _ r ((run-IsSteady (unasked first) l unasked-IsSteady).fits n) e
    where
      unasked-IsSteady : IsSteady (unasked first)
      unasked-IsSteady = record {
        now = first.preferred;
        are = refl;
        may = was_first refl;
        fits = λ m. waits;
      }
