-- ===== src/Container/Protocol/Safety.antt =====
-- About the launch of a container: what has been done when its command is started.
use mathlib.Core.Path.{subst}
use wirez.Container.Launch.{taken_fds, sent_fds}
use wirez.Container.Launch.Laws.{taken_fds-sent_fds}
use wirez.Container.Namespace.{Effect}
use wirez.Container.Protocol.{
  network_and_files, opening, map, Config, Message, rights, mtu_is, Instr, does, runs_command,
  run_container, Taken, Parent, receiving_mtu, building, resolving, acking, waiting, World, starved,
  taken_then, receive_rights, receive_mtu, parent_step, Turn, child_goes, child_fails, parent_goes,
  parent_fails, turn, run, started,
}
use wirez.Container.Protocol.Orderly.{
  effects, sends_of, awaits, RunsLast, sockets, IsUp, all_messages, Fits, at_fds, at_mtu,
  at_building, at_resolving, at_acking, at_waiting, at_over, IsOrderly, child_ends-IsOrderly,
  parent_ends-IsOrderly, child_step-IsOrderly,
}
use wirez.Prelude.{
  append-nil, ℕ, ◌≡◌, refl, sym, ap, ◌∙◌, true, Option, some, List, [], ◌∷◌, ◌++◌, if_both,
}

module _ (c : Config) (program : List Instr) where
  module _ (w : World) (v : IsOrderly c program w) where
    -- runRun goes on to another place, with the same started.
    moves-IsOrderly :
        (p : Parent) (ms : List Message)
        → Fits c p w.stack w.resolver (ms ++ v.left)
        → IsOrderly c program (record w { parent = p; to_parent = ms })
    moves-IsOrderly p ms f = record {
      left = v.left;
      sending = v.sending;
      fits = f;
      doing = v.doing;
      ends = v.ends;
      acked = v.acked;
      passed = v.passed;
      finished = v.finished;
      ran = v.ran;
      last = v.last;
    }

    -- runRun has started the stack, or the resolver, as it should.
    starts-IsOrderly :
        (p : Parent) (s r : Option (ℕ × ℕ))
        → (IsUp c w.stack w.resolver → IsUp c s r)
        → Fits c p s r (w.to_parent ++ v.left)
        → IsOrderly c program (record w { parent = p; stack = s; resolver = r })
    starts-IsOrderly p s r up f = record {
      left = v.left;
      sending = v.sending;
      fits = f;
      doing = v.doing;
      ends = v.ends;
      acked = λ k. up (v.acked k);
      passed = λ a n. up (v.passed a n);
      finished = v.finished;
      ran = λ k. let (u, e) = v.ran k in (up u, e);
      last = v.last;
    }

    acks-IsOrderly :
        IsUp c w.stack w.resolver → IsOrderly c program (record w { parent = waiting; ack = true })
    acks-IsOrderly u = record {
      left = v.left;
      sending = v.sending;
      fits = at_waiting u;
      doing = v.doing;
      ends = v.ends;
      acked = λ k. u;
      passed = v.passed;
      finished = v.finished;
      ran = v.ran;
      last = v.last;
    }

    starved-IsOrderly : IsOrderly c program (starved w)
    starved-IsOrderly =
        if_both (IsOrderly c program) w.alive (λ a. v) (λ a. parent_ends-IsOrderly c program w v)

    rights-IsOrderly :
        (ms : List Message)
        → ms ++ v.left ≡ all_messages c
        → IsOrderly c program (receive_rights c.dns w ms)
    rights-IsOrderly [] e = starved-IsOrderly
    rights-IsOrderly (mtu_is n ∷ ms) e = absurd (cc e)
    rights-IsOrderly (rights fds ∷ ms) e =
        let same : fds ≡ sent_fds c.dns c.tun c.udp c.tcp = cc e in
        let later : ms ++ v.left ≡ mtu_is c.mtu ∷ [] = cc e in
        subst (λ o. IsOrderly c program (taken_then c.dns w ms o))
          (sym (ap (taken_fds c.dns) same ∙ taken_fds-sent_fds c.dns c.tun c.udp c.tcp))
          (moves-IsOrderly (receiving_mtu (c.tun, sockets c)) ms (at_mtu refl later))

    mtu-IsOrderly :
        (x : Taken) (ms : List Message)
        → x ≡ (c.tun, sockets c)
        → ms ++ v.left ≡ mtu_is c.mtu ∷ []
        → IsOrderly c program (receive_mtu c.dns x w ms)
    mtu-IsOrderly x [] s e = starved-IsOrderly
    mtu-IsOrderly x (mtu_is n ∷ ms) s e = moves-IsOrderly (building x n) ms (at_building s (cc e))
    mtu-IsOrderly x (rights fds ∷ ms) s e = parent_ends-IsOrderly c program w v

    parent_step-IsOrderly :
        (p : Parent)
        → w.parent ≡ p
        → Fits c p w.stack w.resolver (w.to_parent ++ v.left)
        → IsOrderly c program (parent_step c.dns p w)
    unfolding parent_step
    parent_step-IsOrderly _ h (at_fds e) = rights-IsOrderly w.to_parent e
    parent_step-IsOrderly _ h (at_mtu {x = x} s e) = mtu-IsOrderly x w.to_parent s e
    parent_step-IsOrderly _ h (at_building {x = (d, q)} {n = n} s e) =
        let made : some (d, n) ≡ some (c.tun, c.mtu) = cc (s, e) in
        starts-IsOrderly (resolving (d, q)) (some (d, n)) w.resolver (λ u. (made, u.1))
          (at_resolving s made)
    parent_step-IsOrderly _ h (at_resolving {x = (d, q)} s e) =
        let made : q ≡ sockets c = cc s in
        starts-IsOrderly acking w.stack q (λ u. (u.0, made)) (at_acking (e, made))
    parent_step-IsOrderly _ h (at_acking u) =
        if_both (IsOrderly c program) w.alive (λ a. acks-IsOrderly u)
          (λ a. parent_ends-IsOrderly c program w v)
    parent_step-IsOrderly _ h (at_waiting u) =
        if_both (IsOrderly c program) w.alive (λ a. v) (λ a. parent_ends-IsOrderly c program w v)
    parent_step-IsOrderly _ h at_over = v

  pub turn-IsOrderly :
      (t : Turn) (w : World) → IsOrderly c program w → IsOrderly c program (turn c.dns t w)
  turn-IsOrderly child_goes w v = child_step-IsOrderly c program w v w.todo refl
  turn-IsOrderly child_fails w v = child_ends-IsOrderly c program w v
  turn-IsOrderly parent_goes w v = parent_step-IsOrderly w v w.parent refl v.fits
  turn-IsOrderly parent_fails w v = parent_ends-IsOrderly c program w v

  pub run-IsOrderly :
      (ts : List Turn) (w : World) → IsOrderly c program w → IsOrderly c program (run c.dns ts w)
  run-IsOrderly [] w v = v
  run-IsOrderly (t ∷ ts) w v = run-IsOrderly ts (turn c.dns t w) (turn-IsOrderly t w v)

-- Calls alone, in front of a program.
module _ (rest : List Instr) where
  calls-effects : (es : List Effect) → effects (map does es ++ rest) ≡ es ++ effects rest
  calls-effects [] = refl
  calls-effects (e ∷ es) = ap (◌∷◌ e) (calls-effects es)

  pub calls-sends_of : (es : List Effect) → sends_of (map does es ++ rest) ≡ sends_of rest
  calls-sends_of [] = refl
  calls-sends_of (e ∷ es) = calls-sends_of es

  pub calls-awaits : (es : List Effect) → awaits (map does es ++ rest) ≡ awaits rest
  calls-awaits [] = refl
  calls-awaits (e ∷ es) = calls-awaits es

  calls-RunsLast : (es : List Effect) → RunsLast rest → RunsLast (map does es ++ rest)
  calls-RunsLast [] r = r
  calls-RunsLast (e ∷ es) r = calls-RunsLast es r

-- All the calls of the container, in their order.
abbrev pub all_calls : Config → List Effect
all_calls c = opening c ++ network_and_files c

module _ (c : Config) where
  run_container-effects : effects (run_container c) ≡ all_calls c
  unfolding run_container
  run_container-effects =
      calls-effects _ (opening c)
      ∙ ap (λ x. opening c ++ x)
          (calls-effects (runs_command ∷ []) (network_and_files c)
            ∙ append-nil (network_and_files c))

  run_container-sends_of : sends_of (run_container c) ≡ all_messages c
  unfolding run_container
  run_container-sends_of =
      calls-sends_of _ (opening c)
      ∙ ap (λ x. rights (sent_fds c.dns c.tun c.udp c.tcp) ∷ mtu_is c.mtu ∷ x)
          (calls-sends_of (runs_command ∷ []) (network_and_files c))

  run_container-awaits : awaits (run_container c) ≡ true
  unfolding run_container
  run_container-awaits = calls-awaits _ (opening c)

  run_container-RunsLast : RunsLast (run_container c)
  unfolding run_container
  run_container-RunsLast =
      calls-RunsLast _ (opening c) (calls-RunsLast (runs_command ∷ []) (network_and_files c) refl)

  pub started-IsOrderly : IsOrderly c (run_container c) (started (run_container c))
  started-IsOrderly = record {
    left = sends_of (run_container c);
    sending = λ e. refl;
    fits = at_fds run_container-sends_of;
    doing = λ e. refl;
    ends = λ e. absurd (cc);
    acked = λ e. absurd (cc);
    passed = λ a n. absurd (cc (run_container-awaits));
    finished = λ e. absurd (cc);
    ran = λ e. absurd (cc);
    last = run_container-RunsLast;
  }

  -- Whatever steps the two processes take from the start on, in any order, and whichever of them
  -- fail: if the command has been started, then the stack was up over the device that the container
  -- had opened, with the MTU of the device, and with -D the resolver over its two sockets, and
  -- without it none; and every call that sets up the container had been made, in order.
  pub run_container-IsUp :
      (ts : List Turn)
      → (run c.dns ts (started (run_container c))).running ≡ true
      → (let w = run c.dns ts (started (run_container c)) in
          IsUp c w.stack w.resolver × (w.done ≡ all_calls c))
  run_container-IsUp ts r =
      let (u, e) =
        (run-IsOrderly c (run_container c) ts (started (run_container c)) started-IsOrderly).ran
          r in
      (u, e ∙ run_container-effects)
