-- ===== src/Container/Protocol/Progress.antt =====
-- About the launch of a container in which no step fails: it can go on until the command runs.
use mathlib.Core.Path.{subst}
use wirez.Container.Namespace.{Effect}
use wirez.Container.Protocol.{
  network_and_files, map, opening, Config, Instr, does, sends, receives_ack, runs_command,
  run_container, World, is_over, child_step, parent_step, Turn, child_goes, parent_goes, turn, run,
  started,
}
use wirez.Container.Protocol.Orderly.{sends_of, awaits, IsOrderly}
use wirez.Container.Protocol.Safety.{
  run-IsOrderly, turn-IsOrderly, started-IsOrderly, calls-awaits, calls-sends_of,
}
use wirez.Prelude.{
  suc, All, ℕ, zero, ◌<◌, ◌≡◌, inl, inr, refl, sym, ap, ◌∙◌, true, false, List, [], ◌∷◌, ◌++◌,
  length, if_both, arith, Bool-cases,
}
use wirez.Container.Protocol.Healthy.{
  WellMade, IsHealthy, Goes, IsGoing, child, parent, child_step-Goes, work, Nears,
  parent_step-Nears,
}
use wirez.Container.Protocol.Running.{child_step-running, parent_step-running}

module _ (c : Config) (program : List Instr) (w : World) (o : IsOrderly c program w)
    (v : IsHealthy w) where
  -- A container that waits for the ACK has sent all there is to send, so that runRun goes on.
  acked_soon :
      (is : List Instr)
      → w.todo ≡ receives_ack ∷ is
      → w.ack ≡ false
      → Nears c program w o v (parent_step c.dns w.parent w)
  acked_soon is h n = elim (parent_step-Nears c program w o v w.parent refl o.fits) [
    | inl (same, inl p) ↦ absurd (cc (v.answered p (ap awaits h), n))
    | inl (same, inr (e, m, ms, more)) ↦
        let sent : o.left ≡ [] = o.sending v.living ∙ ap sends_of h ∙ (subst WellMade h v.made).1 in
        absurd (cc (sym more ∙ ap (λ x. x ++ o.left) e ∙ sent))
    | inr k ↦ k
  ]

  -- A turn that brings the launch nearer to its end.
  Turns : Type 0
  Turns = (t : Turn) × IsGoing t × Nears c program w o v (turn c.dns t w)

  child_turn :
      (i : Instr) (is : List Instr)
      → w.todo ≡ i ∷ is
      → work (child_step (i ∷ is) w) < work w
      → Turns
  unfolding Turns
  child_turn i is h lt = (
    child_goes,
    child,
    subst (λ x. Goes (child_step x w) × (work (child_step x w) < work w)) (sym h)
        (child_step-Goes w v (i ∷ is) h, lt),
  )

  next_turn : (is : List Instr) → w.todo ≡ is → Turns
  unfolding Turns
  next_turn [] h = absurd (subst WellMade h v.made)
  next_turn (does e ∷ is) h = child_turn (does e) is h (omega (arith, ap length h))
  next_turn (sends m ∷ is) h = child_turn (sends m) is h (
      if_both (λ (x : World). work x < work w) (is_over w.parent) (λ x. absurd (cc (v.open')))
        (λ x. omega (arith, ap length h)))
  next_turn (receives_ack ∷ is) h = elim (Bool-cases w.ack) [
    | inl k ↦ child_turn receives_ack is h (
        if_both (λ (x : World). work x < work w) w.ack (λ x. omega (arith, ap length h))
          (λ x. absurd (cc (k, x))))
    | inr k ↦ (parent_goes, parent, acked_soon is h k)
  ]
  next_turn (runs_command ∷ is) h = child_turn runs_command is h (omega (arith, ap length h))

module _ (c : Config) (program : List Instr) where
  -- A turn in which nothing fails keeps what has been reached.
  turn-Goes :
      (t : Turn) (w : World) → IsGoing t → IsOrderly c program w → Goes w → Goes (turn c.dns t w)
  turn-Goes _ w child o (inl r) = inl (child_step-running w.todo w r)
  turn-Goes _ w parent o (inl r) = inl (parent_step-running c.dns w.parent w r)
  turn-Goes _ w child o (inr v) = child_step-Goes w v w.todo refl
  turn-Goes _ w parent o (inr v) = elim (parent_step-Nears c program w o v w.parent refl o.fits) [
    | inl (same, x) ↦ inr (subst IsHealthy (sym same) v)
    | inr n ↦ n.0
  ]

  run-Goes :
      (ts : List Turn) (w : World)
      → All IsGoing ts
      → IsOrderly c program w
      → Goes w
      → Goes (run c.dns ts w)
  run-Goes [] w g o h = h
  run-Goes (t ∷ ts) w g o h =
      run-Goes ts (turn c.dns t w) g.1 (turn-IsOrderly c program t w o) (turn-Goes t w g.0 o h)

  -- With the turns that are left counted, the command is reached.
  reaches :
      (n : ℕ) (w : World)
      → work w < n
      → IsOrderly c program w
      → Goes w
      → (ts : List Turn) × All IsGoing ts × ((run c.dns ts w).running ≡ true)
  unfolding Turns
  reaches n w lt o (inl r) = ([], tt, r)
  reaches zero w lt o (inr v) = absurd (omega arith)
  reaches (suc n) w lt o (inr v) =
      let (t, g, near) = next_turn c program w o v w.todo refl in
      let (ts, gs, r) =
        reaches n (turn c.dns t w) (omega (arith, near.1)) (turn-IsOrderly c program t w o)
          near.0 in
      (t ∷ ts, (g, gs), r)

calls-WellMade :
    (rest : List Instr) (es : List Effect) → WellMade rest → WellMade (map does es ++ rest)
calls-WellMade rest [] m = m
calls-WellMade rest (e ∷ es) m = calls-WellMade rest es m

module _ (c : Config) where
  run_container-WellMade : WellMade (run_container c)
  unfolding run_container
  run_container-WellMade =
      let last : List Instr = runs_command ∷ [] in
      calls-WellMade _ (opening c) (
        calls-awaits last (network_and_files c),
        calls-sends_of last (network_and_files c),
        calls-WellMade last (network_and_files c) tt,
      )

  run-append :
      (ts us : List Turn) (w : World) → run c.dns us (run c.dns ts w) ≡ run c.dns (ts ++ us) w
  run-append [] us w = refl
  run-append (t ∷ ts) us w = run-append ts us (turn c.dns t w)

  -- The launch never gets stuck: whatever steps the two processes have taken from the start on, as
  -- long as none has failed, there are steps that they can take next, none of them a failure, behind
  -- which the command has been started.
  pub run_container-runs :
      (ts : List Turn)
      → All IsGoing ts
      → (us : List Turn) × All IsGoing us
        × ((run c.dns (ts ++ us) (started (run_container c))).running ≡ true)
  run_container-runs ts g =
      let first : World = started (run_container c) in
      let o = run-IsOrderly c (run_container c) ts first (started-IsOrderly c) in
      let healthy : IsHealthy first = record {
        living = refl;
        open' = refl;
        made = run_container-WellMade;
        answered = λ p a. absurd (cc p);
      } in
      let h = run-Goes c (run_container c) ts first g (started-IsOrderly c) (inr healthy) in
      let (us, gs, r) =
        reaches c (run_container c) (suc (work (run c.dns ts first))) (run c.dns ts first)
          (omega arith) o h in
      (us, gs, ap (λ (w : World). w.running) (sym (run-append ts us first)) ∙ r)
