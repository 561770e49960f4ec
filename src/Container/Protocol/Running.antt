-- ===== src/Container/Protocol/Running.antt =====
-- About the launch of a container: a command that was started stays started.
use wirez.Container.Launch.{taken_fds}
use wirez.Container.Protocol.{
  panic, throw, ok, Outcome, Message, rights, mtu_is, Instr, does, sends, receives_ack,
  runs_command, Taken, Parent, receiving_fds, receiving_mtu, building, resolving, acking, waiting,
  over, World, is_over, child_step, starved, taken_then, receive_rights, receive_mtu, parent_step,
}
use wirez.Prelude.{◌≡◌, refl, ◌∙◌, Bool, true, List, [], ◌∷◌, if_both}

pub child_step-running :
    (is : List Instr) (w : World) → w.running ≡ true → (child_step is w).running ≡ true
child_step-running [] w r = r
child_step-running (does e ∷ is) w r = r
child_step-running (sends m ∷ is) w r =
    if_both (λ (x : World). x.running ≡ true) (is_over w.parent) (λ o. r) (λ o. r)
child_step-running (receives_ack ∷ is) w r =
    if_both (λ (x : World). x.running ≡ true) w.ack (λ k. r)
      (λ k. if_both (λ (x : World). x.running ≡ true) (is_over w.parent) (λ o. r) (λ o. r))
child_step-running (runs_command ∷ is) w r = refl

taken_then-running :
    (dns : Bool) (w : World) (ms : List Message) (o : Outcome Taken)
    → (taken_then dns w ms o).running ≡ w.running
taken_then-running dns w ms (ok x) = refl
taken_then-running dns w ms (throw x) = refl
taken_then-running dns w ms (panic x) = refl

starved-running : (w : World) → (starved w).running ≡ w.running
starved-running w = if_both (λ (x : World). x.running ≡ w.running) w.alive (λ o. refl) (λ o. refl)

receive_rights-running :
    (dns : Bool) (w : World) (ms : List Message) → (receive_rights dns w ms).running ≡ w.running
receive_rights-running dns w [] = starved-running w
receive_rights-running dns w (rights fds ∷ ms) = taken_then-running dns w ms (taken_fds dns fds)
receive_rights-running dns w (mtu_is n ∷ ms) = taken_then-running dns w ms (taken_fds dns [])

receive_mtu-running :
    (dns : Bool) (x : Taken) (w : World) (ms : List Message)
    → (receive_mtu dns x w ms).running ≡ w.running
receive_mtu-running dns x w [] = starved-running w
receive_mtu-running dns x w (rights fds ∷ ms) = refl
receive_mtu-running dns x w (mtu_is n ∷ ms) = refl

pub parent_step-running :
    (dns : Bool) (p : Parent) (w : World) → w.running ≡ true → (parent_step dns p w).running ≡ true
unfolding parent_step
parent_step-running dns receiving_fds w r = receive_rights-running dns w w.to_parent ∙ r
parent_step-running dns (receiving_mtu x) w r = receive_mtu-running dns x w w.to_parent ∙ r
parent_step-running dns (building (d, q) n) w r = r
parent_step-running dns (resolving (d, q)) w r = r
parent_step-running dns acking w r =
    if_both (λ (x : World). x.running ≡ true) w.alive (λ a. r) (λ a. r)
parent_step-running dns waiting w r =
    if_both (λ (x : World). x.running ≡ true) w.alive (λ a. r) (λ a. r)
parent_step-running dns over w r = r
