-- ===== src/Dns/Upstreams/Failover.antt =====
-- About dnsUpstreams.forward of resolver.go: its order and what it remembers.
use native.Mathlib.Nat.{mod-lt, mod-eq_of_lt, add-zero}
use mathlib.Core.Path.{subst}
use wirez.Dns.Upstreams.{
  Upstreams, join_errors, give_up, prefer, index_of, addr_of, forward_loop, forward,
}
use wirez.Prelude.{
  ℕ, zero, suc, ◌+◌, ◌%◌, ◌≤◌, ◌<◌, ◌≡◌, ◌↔◌, refl, sym, ◌∙◌, ap, inl, inr, some, List, [], ◌∷◌,
  ◌++◌, arith, Bytes, length, length-append, ◌==◌, ==_iff, Bool-cases,
}
use native.Mathlib.Decide.{dec_lt}
use wirez.Throw.{via, joined, Outcome-cases, Error, Fault, Outcome, ok, throw, panic, throw_if}

-- An index that is in range; the preferred one always is.
abbrev pub InRange : Upstreams → Type 0
InRange u = u.preferred < length u.addrs

module _ (ask : Bytes → Outcome Bytes) (u : Upstreams) where
  -- The upstream of a round.
  abbrev pub asked : ℕ → Bytes
  asked i = addr_of u (index_of u u.preferred i)

  -- Round `k` answers, and every round from `i` up to it throws.
  pub record Answers (i k : ℕ) (resp : Bytes) : Type 0 where
    pub from_i : i ≤ k
    pub in_list : k < length u.addrs
    pub answer : ask (asked k) ≡ ok resp
    pub before : (j : ℕ) → i ≤ j → j < k → (e : Error) × (ask (asked j) ≡ throw e)

join_some : (e : Error) (es : List Error) → (r : Error) × (join_errors (e ∷ es) ≡ some r)
join_some e [] = (e, refl)
join_some e (f ∷ es) = let (r, same) = join_some f es in (joined e r, rw same refl)

give_up-throws : (e : Error) (es : List Error) → (r : Error) × (give_up (e ∷ es) ≡ throw r)
unfolding throw_if
give_up-throws e es = let (r, same) = join_some e es in (r, rw same refl)

nonempty : {A : Type 0} (xs : List A) → 0 < length xs → (x : A) × (rest : List A) × (xs ≡ x ∷ rest)
nonempty [] h = absurd (omega arith)
nonempty (x ∷ xs) h = (x, xs, refl)

module _ (ask : Bytes → Outcome Bytes) (u : Upstreams) where
  abbrev pub loop : ℕ → ℕ → List Error → Outcome Bytes × Upstreams
  loop = forward_loop ask u u.preferred

  abbrev pub won : ℕ → Bytes → Outcome Bytes × Upstreams
  won k resp = (ok resp, prefer u u.preferred (index_of u u.preferred k))

  -- One round that answers, and one that throws.
  pub loop_answer :
      (rounds i : ℕ) (errs : List Error) {resp : Bytes}
      → ask (asked ask u i) ≡ ok resp
      → loop (suc rounds) i errs ≡ won i resp
  unfolding forward_loop
  loop_answer rounds i errs e = rw e refl

  pub loop_throw :
      (rounds i : ℕ) (errs : List Error) {x : Error}
      → ask (asked ask u i) ≡ throw x
      → loop (suc rounds) i errs ≡ loop rounds (suc i) (errs ++ via (asked ask u i) [] x ∷ [])
  unfolding forward_loop
  loop_throw rounds i errs e = rw e refl

  pub loop_panic :
      (rounds i : ℕ) (errs : List Error) {x : Fault}
      → ask (asked ask u i) ≡ panic x
      → loop (suc rounds) i errs ≡ (panic x, u)
  unfolding forward_loop
  loop_panic rounds i errs e = rw e refl

  -- With an answering round `k` ahead, the loop stops there.
  loop_reaches :
      (rounds i k : ℕ) (errs : List Error) {resp : Bytes}
      → i + rounds ≡ length u.addrs
      → Answers ask u i k resp
      → loop rounds i errs ≡ won k resp
  loop_reaches zero i k errs n a = absurd (omega arith)
  loop_reaches (suc rounds) i k errs n a = elim (dec_lt i k) [
    | yes lt ↦
        let (x, e) = a.before i (omega arith) lt in
        loop_throw rounds i errs e
        ∙ loop_reaches rounds (suc i) k _ (omega arith) (record {
          from_i = omega arith;
          in_list = a.in_list;
          answer = a.answer;
          before = λ j lo hi. a.before j (omega arith) hi;
        })
    | no ge ↦
        let same : i ≡ k = omega (arith, a.from_i) in rw same (loop_answer rounds k errs a.answer)
  ]

  -- If the loop returns an answer, some round answered and all before it threw.
  loop_ok :
      (rounds i : ℕ) (errs : List Error) {resp : Bytes} {u' : Upstreams}
      → i + rounds ≡ length u.addrs
      → length errs ≡ i
      → 0 < length u.addrs
      → loop rounds i errs ≡ (ok resp, u')
      → (k : ℕ) × Answers ask u i k resp
  loop_ok zero i errs {resp} {u'} n l pos e =
      let (x, rest, same) = nonempty errs (omega arith) in
      let (r, thrown) = give_up-throws x rest in
      absurd (no_answer (ap give_up same ∙ thrown) (unfold forward_loop in e))
    where
      no_answer :
          {r : Error}
          → give_up errs ≡ throw r
          → ◌≡◌ {A = Outcome Bytes × Upstreams} (give_up errs, u) (ok resp, u')
          → ⊥
      no_answer t q = cc (ap (λ (p : Outcome Bytes × Upstreams). p.0) q, t)
  loop_ok (suc rounds) i errs {resp} {u'} n l pos e = elim (Outcome-cases (ask (asked ask u i))) [
    | inl (a, h) ↦ (
      i,
      record {
        from_i = omega arith;
        in_list = omega arith;
        answer = h ∙ same_answer (sym (loop_answer rounds i errs h) ∙ e);
        before = λ j lo hi. absurd (omega arith);
      },
    )
    | inr (inl (x, h)) ↦
        let (k, a) =
          loop_ok rounds (suc i) (errs ++ via (asked ask u i) [] x ∷ []) {resp = resp} {u' = u'}
            (omega arith) (omega (arith, length-append errs (via (asked ask u i) [] x ∷ []))) pos
            (sym (loop_throw rounds i errs h) ∙ e) in
        (
          k,
          record {
            from_i = omega (arith, a.from_i);
            in_list = a.in_list;
            answer = a.answer;
            before = λ j lo hi. elim (dec_lt i j) [
              | yes lt ↦ a.before j (omega arith) hi
              | no ge ↦
                  let same : j ≡ i = omega arith in
                  (x, ap (λ (m : ℕ). ask (asked ask u m)) same ∙ h)
            ];
          },
        )
    | inr (inr (p, h)) ↦ absurd (no_panic (sym (loop_panic rounds i errs h) ∙ e))
  ]
    where
      same_answer : {a : Bytes} → won i a ≡ (ok resp, u') → ok a ≡ ok resp
      same_answer q = ap (λ (p : Outcome Bytes × Upstreams). p.0) q

      no_panic : {p : Fault} → ◌≡◌ {A = Outcome Bytes × Upstreams} (panic p, u) (ok resp, u') → ⊥
      no_panic q = cc (ap (λ (p : Outcome Bytes × Upstreams). p.0) q)

module _ (ask : Bytes → Outcome Bytes) (u : Upstreams) (v : InRange u) where
  prefer_is : (idx : ℕ) → prefer u u.preferred idx ≡ record u { preferred = idx }
  prefer_is idx = elim (Bool-cases (idx == u.preferred)) [
    | inl same ↦
        rw same (ap (λ (i : ℕ). record u { preferred = i }) (sym ((==_iff idx u.preferred).0 same)))
    | inr other ↦ rw other refl
  ]

  forward-loop : forward ask u ≡ forward_loop ask u u.preferred (length u.addrs) 0 []
  unfolding forward
  forward-loop = refl

  -- With the preferred index in range, asking answers exactly when some round, counted from the
  -- preferred upstream, answers and every round before it throws. The answer is that upstream's,
  -- which is preferred from then on, and the list of upstreams stays.
  pub forward_iff :
      (resp : Bytes) (u' : Upstreams)
      → (forward ask u ≡ (ok resp, u')) ↔ (
          (k : ℕ) × Answers ask u 0 k resp
          × (u' ≡ record u { preferred = index_of u u.preferred k }))
  forward_iff resp u' = (to, from)
    where
      result :
          (k : ℕ) → won ask u k resp ≡ (ok resp, record u { preferred = index_of u u.preferred k })
      result k = ap (λ (w : Upstreams). (ok resp, w)) (prefer_is (index_of u u.preferred k))

      to :
          forward ask u ≡ (ok resp, u')
          → (k : ℕ) × Answers ask u 0 k resp
            × (u' ≡ record u { preferred = index_of u u.preferred k })
      to e =
          let looped = sym forward-loop ∙ e in
          let (k, a) =
            loop_ok ask u (length u.addrs) 0 [] (omega arith) refl (omega arith) looped in
          let met = loop_reaches ask u (length u.addrs) 0 k [] (omega arith) a in
          (k, a, ap (λ (p : Outcome Bytes × Upstreams). p.1) (sym looped ∙ met ∙ result k))

      from :
          (k : ℕ) × Answers ask u 0 k resp
            × (u' ≡ record u { preferred = index_of u u.preferred k })
          → forward ask u ≡ (ok resp, u')
      from (k, a, same) =
          forward-loop
          ∙ loop_reaches ask u (length u.addrs) 0 k [] (omega arith) a
          ∙ result k
          ∙ ap (λ (w : Upstreams). (ok resp, w)) (sym same)

  -- If the preferred upstream, whose index is in range, answers, its answer is the result and it
  -- stays the preferred one.
  pub forward_first :
      (resp : Bytes) → ask (addr_of u u.preferred) ≡ ok resp → forward ask u ≡ (ok resp, u)
  forward_first resp e =
      let here : index_of u u.preferred 0 ≡ u.preferred =
        ap (λ (n : ℕ). n % length u.addrs) (add-zero u.preferred) ∙ mod-eq_of_lt v in
      (forward_iff resp u).1 (
        0,
        record {
          from_i = omega arith;
          in_list = omega arith;
          answer = ap (λ (i : ℕ). ask (addr_of u i)) here ∙ e;
          before = λ j lo hi. absurd (omega arith);
        },
        ap (λ (i : ℕ). record u { preferred = i }) (sym here),
      )

  pub forward-InRange : (resp : Bytes) (u' : Upstreams) → forward ask u ≡ (ok resp, u') → InRange u'
  forward-InRange resp u' e =
      let (k, a, same) = (forward_iff resp u').0 e in
      subst InRange (sym same) (mod-lt (u.preferred + k) (omega arith))
