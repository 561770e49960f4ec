-- ===== src/Udp/Association/Invariant.antt =====
-- About closing, reading and any sequence of the operations of udp_assoc.go.
use wirez.Net.IpText.{IpText}
use wirez.Prelude.{
  ap, ℕ, ◌≤◌, ◌≡◌, refl, ◌∙◌, inl, inr, true, not, ◌&&◌, Option, some, List, [], ◌∷◌, arith, Bytes,
  length, lookup, remove, lookup-remove, if_both, Bool-cases,
}
use wirez.Udp.Association.{
  Association, Flow, Op, opens, delivers, closes, reads, sets_deadline, shuts, taken, flow_take,
  flow_set_deadline, flow_queue, update, mark_done, is_flow, is_empty, without, close_flow,
  flow_close, wake, shutdown, step, run,
}
use wirez.Udp.Association.Sound.{
  IsSound, update-mark_done, update_at, open_flow-IsSound, restored-IsSound, deliver-IsSound,
}

wake_keeps :
    (fs : List (Bytes × ℕ)) (s : ℕ → Flow) (i : ℕ)
    → ((wake fs s i).key ≡ (s i).key) × ((wake fs s i).queue ≡ (s i).queue)
unfolding wake
wake_keeps [] s i = (refl, refl)
wake_keeps ((k, j) ∷ fs) s i =
    let rest = wake_keeps fs (update s j (mark_done (s j))) i in
    let here = update-mark_done s j i in (rest.0 ∙ here.0, rest.1 ∙ here.1)

without-lookup :
    (i : ℕ) (a : Association) (k : Bytes) (j : ℕ)
    → lookup k (without i a) ≡ some j
    → lookup k a.flows ≡ some j
without-lookup i a k j e = elim (Bool-cases (is_flow i (lookup (a.store i).key a.flows))) [
  | inl w ↦
      let e' : lookup k (remove (a.store i).key a.flows) ≡ some j = rw w at e in
      ground (arith, lookup-remove (a.store i).key k a.flows, e')
  | inr w ↦ rw w at e
]

is_empty-nil {ℓ} : {A : Type ℓ} (xs : List A) → is_empty xs ≡ true → xs ≡ []
is_empty-nil [] h = refl
is_empty-nil (x ∷ xs) h = cc

without-nil : (i : ℕ) (a : Association) → a.flows ≡ [] → without i a ≡ []
unfolding lookup remove
without-nil i a e = rw e refl

close_flow-IsSound : (i : ℕ) (a : Association) → IsSound a → IsSound (close_flow i a)
unfolding close_flow
close_flow-IsSound i a v =
    if_both IsSound (is_empty (without i a) && not a.closed)
      (λ e. record {
        entries = λ k j l. v.entries k j (without-lookup i a k j l);
        emptied = λ c. is_empty-nil (without i a) (ground arith);
        conns = refl;
        told = refl;
        bounded = v.bounded;
      })
      (λ e. record {
        entries = λ k j l. v.entries k j (without-lookup i a k j l);
        emptied = λ c. without-nil i a (v.emptied c);
        conns = v.conns;
        told = v.told;
        bounded = v.bounded;
      })

flow_close-IsSound : (i : ℕ) (a : Association) → IsSound a → IsSound (flow_close i a)
unfolding flow_close
flow_close-IsSound i a v =
    close_flow-IsSound i (record a { store = update a.store i (mark_done (a.store i)) })
      (restored-IsSound a (update a.store i (mark_done (a.store i))) (update-mark_done a.store i) v)

shutdown-IsSound : (a : Association) → IsSound a → IsSound (shutdown a)
unfolding shutdown lookup
shutdown-IsSound a v =
    if_both IsSound a.closed (λ e. v)
      (λ e. record {
        entries = λ k i l. absurd (cc);
        emptied = λ c. refl;
        conns = refl;
        told = refl;
        bounded = λ i. rw ((wake_keeps a.flows a.store i).1) (v.bounded i);
      })

taken-IsSound :
    (n i : ℕ) (a : Association) (ps : List Bytes)
    → (a.store i).queue ≡ ps
    → IsSound a
    → IsSound (taken n i a ps).1
taken-IsSound n i a [] e v = v
taken-IsSound n i a (p ∷ ps) e v = record {
  entries = λ k j l. let (low, key) = v.entries k j l in (low, (at j).0 ∙ key);
  emptied = v.emptied;
  conns = v.conns;
  told = v.told;
  bounded = λ j. (at j).1;
}
  where
    at :
        (j : ℕ)
        → ((update a.store i (record (a.store i) { queue = ps }) j).key ≡ (a.store j).key)
          × (length (update a.store i (record (a.store i) { queue = ps }) j).queue ≤ flow_queue)
    at j = elim (update_at a.store i j (record (a.store i) { queue = ps })) [
      | inl (same, f) ↦ (
        rw f (ap (λ (k : ℕ). (a.store k).key) same),
        rw f (omega (arith, v.bounded i, ap length e)),
      )
      | inr (other, f) ↦ (rw f refl, rw f (v.bounded j))
    ]

flow_set_deadline-IsSound :
    (i : ℕ) (d : Option ℕ) (a : Association) → IsSound a → IsSound (flow_set_deadline i d a)
unfolding flow_set_deadline
flow_set_deadline-IsSound i d a v =
    restored-IsSound a (update a.store i (record (a.store i) { deadline = d })) same v
  where
    same :
        (j : ℕ)
        → ((update a.store i (record (a.store i) { deadline = d }) j).key ≡ (a.store j).key)
          × ((update a.store i (record (a.store i) { deadline = d }) j).queue ≡ (a.store j).queue)
    same j = elim (update_at a.store i j (record (a.store i) { deadline = d })) [
      | inl (e, f) ↦
          (rw f (ap (λ (k : ℕ). (a.store k).key) e), rw f (ap (λ (k : ℕ). (a.store k).queue) e))
      | inr (e, f) ↦ (rw f refl, rw f refl)
    ]

step-IsSound : (t : IpText) (o : Op) (a : Association) → IsSound a → IsSound (step t o a)
unfolding step flow_take
step-IsSound t (opens host port) a v = open_flow-IsSound t host port a v
step-IsSound t (delivers b) a v = deliver-IsSound t b a v
step-IsSound t (closes i) a v = flow_close-IsSound i a v
step-IsSound t (reads n i) a v = taken-IsSound n i a (a.store i).queue refl v
step-IsSound t (sets_deadline i d) a v = flow_set_deadline-IsSound i d a v
step-IsSound t shuts a v = shutdown-IsSound a v

-- An association that is sound, as a new one is, is sound after any sequence of opening flows,
-- delivering datagrams, reading, setting deadlines, closing flows and shutting down.
pub run-IsSound : (t : IpText) (os : List Op) (a : Association) → IsSound a → IsSound (run t os a)
unfolding run
run-IsSound t [] a v = v
run-IsSound t (o ∷ os) a v = run-IsSound t os (step t o a) (step-IsSound t o a v)
