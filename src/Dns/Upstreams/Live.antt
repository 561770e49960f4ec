-- ===== src/Dns/Upstreams/Live.antt =====
-- About dnsUpstreams.forward of resolver.go, when some upstream answers.
use wirez.Dns.Upstreams.Failover.{InRange, asked, Answers, forward_iff}
use native.Mathlib.Nat.{mod-eq_of_lt, add-mod_left}
use wirez.Dns.Upstreams.{Upstreams, index_of, addr_of, forward}
use wirez.Prelude.{
  ℕ, zero, suc, ◌+◌, ◌-◌, ◌%◌, ◌≤◌, ◌<◌, ◌≡◌, ◌≢◌, refl, sym, ◌∙◌, ap, inl, inr, arith, Bytes,
  length,
}
use native.Mathlib.Decide.{dec_lt}
use wirez.Throw.{Outcome-cases, Error, Fault, Outcome, ok, throw, panic}

module _ (ask : Bytes → Outcome Bytes) (u : Upstreams) (v : InRange u)
    (calm : (a : Bytes) (p : Fault) → ask a ≢ panic p) where
  -- If some round answers, there is a first one that does.
  first_answer :
      (rounds i k : ℕ) {resp : Bytes}
      → i + rounds ≡ length u.addrs
      → i ≤ k
      → k < length u.addrs
      → ask (asked ask u k) ≡ ok resp
      → (f : ℕ) × (r : Bytes) × Answers ask u i f r
  first_answer zero i k n lo hi e = absurd (omega arith)
  first_answer (suc rounds) i k {resp} n lo hi e = elim (Outcome-cases (ask (asked ask u i))) [
    | inl (a, h) ↦ (
      i,
      a,
      record {
        from_i = omega arith;
        in_list = omega arith;
        answer = h;
        before = λ j lo' hi'. absurd (omega arith);
      },
    )
    | inr (inl (x, h)) ↦ elim (dec_lt i k) [
      | no ge ↦
          let same : i ≡ k = omega arith in
          absurd (not_both (sym h ∙ ap (λ (m : ℕ). ask (asked ask u m)) same ∙ e))
      | yes lt ↦
          let (f, r, a) =
            first_answer rounds (suc i) k {resp = resp} (omega arith) (omega arith) hi e in
          (
            f,
            r,
            record {
              from_i = omega (arith, a.from_i);
              in_list = a.in_list;
              answer = a.answer;
              before = λ j lo' hi'. elim (dec_lt i j) [
                | yes l ↦ a.before j (omega arith) hi'
                | no g ↦
                    let here : j ≡ i = omega arith in
                    (x, ap (λ (m : ℕ). ask (asked ask u m)) here ∙ h)
              ];
            },
          )
    ]
    | inr (inr (p, h)) ↦ absurd (calm (asked ask u i) p h)
  ]
    where
      not_both : {x : Error} → throw x ≡ ok resp → ⊥
      not_both q = cc

  -- Every upstream has its round.
  round_of :
      (j : ℕ) → j < length u.addrs → (k : ℕ) × (k < length u.addrs) × (index_of u u.preferred k ≡ j)
  round_of j h = elim (dec_lt j u.preferred) [
    | no ge ↦ (
      j - u.preferred,
      omega arith,
      ap (λ (n : ℕ). n % length u.addrs) (omega arith) ∙ mod-eq_of_lt h,
    )
    | yes lt ↦
        let n = length u.addrs in
        (j + n - u.preferred, omega arith, ap (λ (m : ℕ). m % n) (omega arith) ∙ wrapped n j h)
  ]
    where
      wrapped : (n j : ℕ) → j < n → (n + j) % n ≡ j
      wrapped n j l = add-mod_left n j ∙ mod-eq_of_lt l

  -- If asking never panics and the preferred index is in range, a query is answered as long as one
  -- upstream of the list answers it, wherever it stands.
  pub forward_live :
      (j : ℕ) (resp : Bytes)
      → j < length u.addrs
      → ask (addr_of u j) ≡ ok resp
      → (r : Bytes) × (u' : Upstreams) × (forward ask u ≡ (ok r, u'))
  forward_live j resp h e =
      let (k, small, same) = round_of j h in
      let answered = ap (λ (m : ℕ). ask (addr_of u m)) same ∙ e in
      let (f, r, a) =
        first_answer (length u.addrs) 0 k {resp = resp} (omega arith) (omega arith) small
          answered in
      (
        r,
        record u { preferred = index_of u u.preferred f },
        (forward_iff ask u v r _).1 (f, a, refl),
      )
