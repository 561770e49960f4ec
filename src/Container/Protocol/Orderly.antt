-- ===== src/Container/Protocol/Orderly.antt =====
-- About the launch of a container: what holds of both processes at any time, and the container's steps.
use wirez.Container.Launch.{sent_fds}
use wirez.Container.Namespace.{Effect}
use wirez.Container.Protocol.{
  Config, Message, rights, mtu_is, Instr, does, sends, receives_ack, runs_command, Taken, Parent,
  receiving_fds, receiving_mtu, building, resolving, acking, waiting, over, World, is_over,
  child_ends, child_step, parent_ends,
}
use wirez.Prelude.{
  if_both, ℕ, ◌≡◌, refl, sym, ap, ◌∙◌, Bool, true, false, Option, none, some, List, [], ◌∷◌, ◌++◌,
  append_assoc, append-nil, Bool-cases, inl, inr, if◌then◌else◌,
}
use mathlib.Core.Path.{subst}

-- The calls, and the messages, that are left to a program.
abbrev pub effects : List Instr → List Effect
effects [] = []
effects (does e ∷ is) = e ∷ effects is
effects (_ ∷ is) = effects is

abbrev pub sends_of : List Instr → List Message
sends_of [] = []
sends_of (sends m ∷ is) = m ∷ sends_of is
sends_of (_ ∷ is) = sends_of is

-- Whether the ACK is still to be received.
abbrev pub awaits : List Instr → Bool
awaits [] = false
awaits (receives_ack ∷ is) = true
awaits (_ ∷ is) = awaits is

-- The command comes last.
abbrev pub RunsLast : List Instr → Type 0
RunsLast [] = Unit
RunsLast (runs_command ∷ is) = is ≡ []
RunsLast (_ ∷ is) = RunsLast is

module _ (c : Config) where
  -- The descriptors of the resolver, if there is one.
  abbrev pub sockets : Option (ℕ × ℕ)
  sockets = if c.dns then some (c.udp, c.tcp) else none

  -- The stack is up over the container's device, with the MTU of the device, and the resolver, if
  -- the container has one, over its sockets.
  abbrev pub IsUp : Option (ℕ × ℕ) → Option (ℕ × ℕ) → Type 0
  IsUp stack resolver = (stack ≡ some (c.tun, c.mtu)) × (resolver ≡ sockets)

  abbrev pub all_messages : List Message
  all_messages = rights (sent_fds c.dns c.tun c.udp c.tcp) ∷ mtu_is c.mtu ∷ []

  -- Where runRun is, with what it has started and what it has still to hear.
  pub data Fits : Parent → Option (ℕ × ℕ) → Option (ℕ × ℕ) → List Message → Type 0 where
    at_fds :
        {s r : Option (ℕ × ℕ)} {ms : List Message} → ms ≡ all_messages → Fits receiving_fds s r ms
    at_mtu :
        {x : Taken} {s r : Option (ℕ × ℕ)} {ms : List Message}
        → x ≡ (c.tun, sockets)
        → ms ≡ mtu_is c.mtu ∷ []
        → Fits (receiving_mtu x) s r ms
    at_building :
        {x : Taken} {n : ℕ} {s r : Option (ℕ × ℕ)} {ms : List Message}
        → x ≡ (c.tun, sockets)
        → n ≡ c.mtu
        → Fits (building x n) s r ms
    at_resolving :
        {x : Taken} {s r : Option (ℕ × ℕ)} {ms : List Message}
        → x ≡ (c.tun, sockets)
        → s ≡ some (c.tun, c.mtu)
        → Fits (resolving x) s r ms
    at_acking : {s r : Option (ℕ × ℕ)} {ms : List Message} → IsUp s r → Fits acking s r ms
    at_waiting : {s r : Option (ℕ × ℕ)} {ms : List Message} → IsUp s r → Fits waiting s r ms
    at_over : {s r : Option (ℕ × ℕ)} {ms : List Message} → Fits over s r ms

  -- What holds at any time of a container that was started with a program.
  pub record IsOrderly (program : List Instr) (w : World) : Type 0 where
    pub left : List Message
    pub sending : w.alive ≡ true → left ≡ sends_of w.todo
    pub fits : Fits w.parent w.stack w.resolver (w.to_parent ++ left)
    pub doing : w.alive ≡ true → w.done ++ effects w.todo ≡ effects program
    pub ends : w.alive ≡ false → w.todo ≡ []
    pub acked : w.ack ≡ true → IsUp w.stack w.resolver
    pub passed : w.alive ≡ true → awaits w.todo ≡ false → IsUp w.stack w.resolver
    pub finished : w.running ≡ true → w.todo ≡ []
    pub ran : w.running ≡ true → IsUp w.stack w.resolver × (w.done ≡ effects program)
    pub last : RunsLast w.todo

  module _ (program : List Instr) (w : World) (v : IsOrderly program w) where
    pub child_ends-IsOrderly : IsOrderly program (child_ends w)
    child_ends-IsOrderly = record {
      left = v.left;
      sending = λ e. absurd (cc);
      fits = v.fits;
      doing = λ e. absurd (cc);
      ends = λ e. refl;
      acked = v.acked;
      passed = λ e. absurd (cc);
      finished = λ e. refl;
      ran = v.ran;
      last = tt;
    }

    pub parent_ends-IsOrderly : IsOrderly program (parent_ends w)
    parent_ends-IsOrderly = record {
      left = v.left;
      sending = v.sending;
      fits = at_over;
      doing = v.doing;
      ends = v.ends;
      acked = v.acked;
      passed = v.passed;
      finished = v.finished;
      ran = v.ran;
      last = v.last;
    }

    module _ (i : Instr) (is : List Instr) (h : w.todo ≡ i ∷ is) where
      living : w.alive ≡ true
      living = elim (Bool-cases w.alive) [ inl a ↦ a | inr a ↦ absurd (cc (v.ends a)) ]

      not_running : {A : Type 0} → w.running ≡ true → A
      not_running r = absurd (cc (v.finished r))

    does-IsOrderly :
        (e : Effect) (is : List Instr)
        → w.todo ≡ does e ∷ is
        → IsOrderly program (child_step (does e ∷ is) w)
    does-IsOrderly e is h = record {
      left = v.left;
      sending = λ a. v.sending a ∙ ap sends_of h;
      fits = v.fits;
      doing = λ a.
          append_assoc w.done (e ∷ []) (effects is)
          ∙ sym (ap (λ x. w.done ++ effects x) h)
          ∙ v.doing a;
      ends = λ a. absurd (cc (living (does e) is h));
      acked = v.acked;
      passed = λ a n. v.passed a (ap awaits h ∙ n);
      finished = λ r. not_running (does e) is h r;
      ran = λ r. not_running (does e) is h r;
      last = subst RunsLast h v.last;
    }

    sends-IsOrderly :
        (m : Message) (is : List Instr)
        → w.todo ≡ sends m ∷ is
        → IsOrderly program (record w { todo = is; to_parent = w.to_parent ++ m ∷ [] })
    sends-IsOrderly m is h =
        let living' = living (sends m) is h in
        record {
          left = sends_of is;
          sending = λ a. refl;
          fits =
              subst (Fits w.parent w.stack w.resolver)
                (ap (λ x. w.to_parent ++ x) (v.sending living' ∙ ap sends_of h)
                  ∙ sym (append_assoc w.to_parent (m ∷ []) (sends_of is)))
                v.fits;
          doing = λ a. sym (ap (λ x. w.done ++ effects x) h) ∙ v.doing a;
          ends = λ a. absurd (cc (living (sends m) is h));
          acked = v.acked;
          passed = λ a n. v.passed a (ap awaits h ∙ n);
          finished = λ r. not_running (sends m) is h r;
          ran = λ r. not_running (sends m) is h r;
          last = subst RunsLast h v.last;
        }

    receives-IsOrderly :
        (is : List Instr)
        → w.todo ≡ receives_ack ∷ is
        → w.ack ≡ true
        → IsOrderly program (record w { todo = is; ack = false })
    receives-IsOrderly is h k = record {
      left = v.left;
      sending = λ a. v.sending a ∙ ap sends_of h;
      fits = v.fits;
      doing = λ a. sym (ap (λ x. w.done ++ effects x) h) ∙ v.doing a;
      ends = λ a. absurd (cc (living receives_ack is h));
      acked = λ a. v.acked k;
      passed = λ a n. v.acked k;
      finished = λ r. not_running receives_ack is h r;
      ran = λ r. not_running receives_ack is h r;
      last = subst RunsLast h v.last;
    }

    runs-IsOrderly :
        (is : List Instr)
        → w.todo ≡ runs_command ∷ is
        → IsOrderly program (record w { todo = is; running = true })
    runs-IsOrderly is h =
        let no_more : is ≡ [] = subst RunsLast h v.last in
        let alive = living runs_command is h in
        let through = v.doing alive in
        record {
          left = v.left;
          sending = λ a. v.sending a ∙ ap sends_of h;
          fits = v.fits;
          doing = λ a. sym (ap (λ x. w.done ++ effects x) h) ∙ v.doing a;
          ends = λ a. no_more;
          acked = v.acked;
          passed = λ a n. v.passed a (ap awaits h ∙ n);
          finished = λ r. no_more;
          ran = λ r. (
            v.passed alive (ap awaits h ∙ ap awaits no_more),
            sym (append-nil w.done)
                ∙ ap (λ x. w.done ++ effects x) (sym no_more)
                ∙ sym (ap (λ x. w.done ++ effects x) h)
                ∙ through,
          );
          last = subst RunsLast (sym no_more) tt;
        }

    pub child_step-IsOrderly : (is : List Instr) → w.todo ≡ is → IsOrderly program (child_step is w)
    child_step-IsOrderly [] h = child_ends-IsOrderly
    child_step-IsOrderly (does e ∷ is) h = does-IsOrderly e is h
    child_step-IsOrderly (sends m ∷ is) h =
        if_both (IsOrderly program) (is_over w.parent) (λ o. child_ends-IsOrderly)
          (λ o. sends-IsOrderly m is h)
    child_step-IsOrderly (receives_ack ∷ is) h =
        if_both (IsOrderly program) w.ack (λ k. receives-IsOrderly is h k)
          (λ k. if_both (IsOrderly program) (is_over w.parent) (λ o. child_ends-IsOrderly) (λ o. v))
    child_step-IsOrderly (runs_command ∷ is) h = runs-IsOrderly is h
