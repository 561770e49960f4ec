-- ===== src/Container/Protocol/Healthy.antt =====
-- About the launch of a container in which no step fails: what is left to do at any time.
use mathlib.Core.Path.{subst}
use wirez.Container.Launch.{taken_fds, sent_fds}
use wirez.Container.Launch.Laws.{taken_fds-sent_fds}
use wirez.Container.Protocol.{
  Config, Message, rights, mtu_is, Instr, does, sends, receives_ack, runs_command, Taken, Parent,
  receiving_fds, receiving_mtu, building, resolving, acking, waiting, over, World, is_over,
  child_step, parent_ends, starved, taken_then, receive_rights, receive_mtu, parent_step, Turn,
  child_goes, parent_goes,
}
use wirez.Container.Protocol.Orderly.{
  sends_of, awaits, sockets, all_messages, Fits, at_fds, at_mtu, at_building, at_resolving,
  at_acking, at_waiting, at_over, IsOrderly,
}
use wirez.Prelude.{
  ℕ, ◌+◌, ◌<◌, ◌≡◌, ◌≢◌, ◌⊎◌, inl, inr, refl, sym, ap, ◌∙◌, true, false, Option, some, List, [],
  ◌∷◌, ◌++◌, length, if_both, if◌then◌else◌, arith,
}

-- A program that ends by the command, and behind its one wait for the ACK sends nothing.
abbrev pub WellMade : List Instr → Type 0
WellMade [] = ⊥
WellMade (runs_command ∷ is) = Unit
WellMade (receives_ack ∷ is) = (awaits is ≡ false) × (sends_of is ≡ []) × WellMade is
WellMade (_ ∷ is) = WellMade is

-- Nothing has failed, and the command has not been started.
pub record IsHealthy (w : World) : Type 0 where
  pub living : w.alive ≡ true
  pub open' : is_over w.parent ≡ false
  pub made : WellMade w.todo
  pub answered : w.parent ≡ waiting → awaits w.todo ≡ true → w.ack ≡ true

-- The command has been started, or nothing has failed.
abbrev pub Goes : World → Type 0
Goes w = (w.running ≡ true) ⊎ IsHealthy w

-- A turn in which nothing fails.
pub data IsGoing : Turn → Type 0 where
  child : IsGoing child_goes
  parent : IsGoing parent_goes

module _ (w : World) (v : IsHealthy w) where
  pub child_step-Goes : (is : List Instr) → w.todo ≡ is → Goes (child_step is w)
  child_step-Goes [] h = absurd (subst WellMade h v.made)
  child_step-Goes (does e ∷ is) h = inr (record {
    living = v.living;
    open' = v.open';
    made = subst WellMade h v.made;
    answered = λ p a. v.answered p (ap awaits h ∙ a);
  })
  child_step-Goes (sends m ∷ is) h =
      if_both Goes (is_over w.parent) (λ o. absurd (cc (v.open')))
        (λ o. inr (record {
          living = v.living;
          open' = v.open';
          made = subst WellMade h v.made;
          answered = λ p a. v.answered p (ap awaits h ∙ a);
        }))
  child_step-Goes (receives_ack ∷ is) h =
      let m = subst WellMade h v.made in
      if_both Goes w.ack
        (λ k. inr (record {
          living = v.living;
          open' = v.open';
          made = m.2;
          answered = λ p a. absurd (cc (m.0, a));
        }))
        (λ k. if_both Goes (is_over w.parent) (λ o. absurd (cc (v.open'))) (λ o. inr v))
  child_step-Goes (runs_command ∷ is) h = inl refl

  starved_lem : starved w ≡ w
  starved_lem = rw v.living refl

  -- runRun goes on to a place that is not its last.
  moves-Goes :
      (p : Parent) (s r : Option (ℕ × ℕ)) (ms : List Message)
      → is_over p ≡ false
      → p ≢ waiting
      → Goes (record w { parent = p; stack = s; resolver = r; to_parent = ms })
  moves-Goes p s r ms o n =
      inr (record { living = v.living; open' = o; made = v.made; answered = λ q a. absurd (n q) })

-- The steps that runRun has left until it waits for the container.
abbrev pub rank : Parent → ℕ
rank receiving_fds = 6
rank (receiving_mtu x) = 5
rank (building x n) = 4
rank (resolving x) = 3
rank acking = 2
rank waiting = 1
rank over = 0

abbrev pub work : World → ℕ
work w = length w.todo + rank w.parent

module _ (c : Config) (program : List Instr) (w : World) (o : IsOrderly c program w)
    (v : IsHealthy w) where
  -- A step of runRun that goes on.
  abbrev pub Nears : World → Type 0
  Nears w' = Goes w' × (work w' < work w)

  module _ (p : Parent) (h : w.parent ≡ p) where
    nears :
        (q : Parent) (s r : Option (ℕ × ℕ)) (ms : List Message)
        → is_over q ≡ false
        → q ≢ waiting
        → rank q < rank p
        → Nears (record w { parent = q; stack = s; resolver = r; to_parent = ms })
    nears q s r ms e n lt = (moves-Goes w v q s r ms e n, omega (arith, ap rank h))

  fds-Nears :
      (ms : List Message)
      → w.parent ≡ receiving_fds
      → ms ++ o.left ≡ all_messages c
      → (ms ≡ []) ⊎ Nears (receive_rights c.dns w ms)
  fds-Nears [] h e = inl refl
  fds-Nears (mtu_is n ∷ ms) h e = absurd (cc e)
  fds-Nears (rights fds ∷ ms) h e =
      let same : fds ≡ sent_fds c.dns c.tun c.udp c.tcp = cc e in
      inr (
        subst (λ x. Nears (taken_then c.dns w ms x))
          (sym (ap (taken_fds c.dns) same ∙ taken_fds-sent_fds c.dns c.tun c.udp c.tcp))
          (nears receiving_fds h (receiving_mtu (c.tun, sockets c)) w.stack w.resolver ms refl
            (λ q. cc q) (omega arith)))

  mtu-Nears :
      (x : Taken) (ms : List Message)
      → w.parent ≡ receiving_mtu x
      → ms ++ o.left ≡ mtu_is c.mtu ∷ []
      → (ms ≡ []) ⊎ Nears (receive_mtu c.dns x w ms)
  mtu-Nears x [] h e = inl refl
  mtu-Nears x (rights fds ∷ ms) h e = absurd (cc e)
  mtu-Nears x (mtu_is n ∷ ms) h e = inr (
      nears (receiving_mtu x) h (building x n) w.stack w.resolver ms refl (λ q. cc q) (omega arith))

  acks-Nears :
      w.parent ≡ acking
      → Nears (if w.alive then record w { parent = waiting; ack = true } else parent_ends w)
  acks-Nears h =
      if_both Nears w.alive
        (λ a. (
          inr (record { living = v.living; open' = refl; made = v.made; answered = λ q n. refl }),
          omega (arith, ap rank h),
        ))
        (λ a. absurd (cc (v.living)))

  -- Why runRun may have to wait: for the container to end, or to send what it has still to send.
  abbrev pub Waits : Parent → Type 0
  Waits p =
      (p ≡ waiting)
      ⊎ ((w.to_parent ≡ [])
          × (m : Message) × (ms : List Message) × (w.to_parent ++ o.left ≡ m ∷ ms))

  pub parent_step-Nears :
      (p : Parent)
      → w.parent ≡ p
      → Fits c p w.stack w.resolver (w.to_parent ++ o.left)
      → ((parent_step c.dns p w ≡ w) × Waits p) ⊎ Nears (parent_step c.dns p w)
  unfolding parent_step
  parent_step-Nears _ h (at_fds e) = elim (fds-Nears w.to_parent h e) [
    | inl none_left ↦
        inl (ap (receive_rights c.dns w) none_left ∙ starved_lem w v, inr (none_left, _, _, e))
    | inr n ↦ inr n
  ]
  parent_step-Nears _ h (at_mtu {x = x} s e) = elim (mtu-Nears x w.to_parent h e) [
    | inl none_left ↦
        inl (ap (receive_mtu c.dns x w) none_left ∙ starved_lem w v, inr (none_left, _, _, e))
    | inr n ↦ inr n
  ]
  parent_step-Nears _ h (at_building {x = (d, q)} {n = n} s e) = inr (
      nears (building (d, q) n) h (resolving (d, q)) (some (d, n)) w.resolver w.to_parent refl
        (λ q. cc q) (omega arith))
  parent_step-Nears _ h (at_resolving {x = (d, q)} s e) =
      inr (nears (resolving (d, q)) h acking w.stack q w.to_parent refl (λ q. cc q) (omega arith))
  parent_step-Nears _ h (at_acking u) = inr (acks-Nears h)
  parent_step-Nears _ h (at_waiting u) = inl (rw v.living refl, inl refl)
  parent_step-Nears _ h at_over = absurd (cc (ap is_over h, v.open'))
