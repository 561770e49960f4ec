-- ===== src/Udp/Association/Sound.antt =====
-- About udp_assoc.go: what holds between any two operations, and those that bring datagrams in.
use wirez.Net.IpText.{IpText}
use wirez.Prelude.{
  ℕ, suc, ◌<◌, ◌≤◌, ◌≡◌, ◌≢◌, ◌⊎◌, refl, sym, ◌∙◌, inl, inr, true, Option, none, some, [], ◌∷◌,
  arith, Bytes, length, length-append, lookup, insert, lookup-insert, equal, equal_iff, ltb, ==_iff,
  ◌==◌, if_both, Bool-cases,
}
use wirez.Socks.Wire.{parse_udp_datagram}
use wirez.Throw.{Outcome, ok, throw, panic}
use wirez.Udp.Association.{
  Association, Flow, flow_queue, udp_flow_key, new_association, new_flow, open_flow, enqueue,
  to_flow, received, deliver, update, mark_done, kept,
}

-- A key of the map leads to a flow that was made, and that has that key. A closed association holds
-- no flow, has closed both connections and was forgotten, and only a closed one. No queue is longer
-- than the channel.
pub record IsSound (a : Association) : Type 0 where
  pub entries :
      (k : Bytes) (i : ℕ) → lookup k a.flows ≡ some i → (i < a.next) × ((a.store i).key ≡ k)
  pub emptied : a.closed ≡ true → a.flows ≡ []
  pub conns : a.conns_closed ≡ a.closed
  pub told : a.forgotten ≡ a.closed
  pub bounded : (i : ℕ) → length (a.store i).queue ≤ flow_queue

pub new_association-IsSound : (src : Bytes) → IsSound (new_association src)
unfolding lookup
new_association-IsSound src = record {
  entries = λ k i e. absurd (cc);
  emptied = λ e. refl;
  conns = refl;
  told = refl;
  bounded = λ i. omega arith;
}

-- Marking a flow leaves its key and its queue.
pub update-mark_done :
    (s : ℕ → Flow) (j i : ℕ)
    → ((update s j (mark_done (s j)) i).key ≡ (s i).key)
      × ((update s j (mark_done (s j)) i).queue ≡ (s i).queue)
update-mark_done s j i = elim (Bool-cases (j == i)) [
  | inl e ↦ let same : j ≡ i = ground arith in (rw (e, same) refl, rw (e, same) refl)
  | inr e ↦ (rw e refl, rw e refl)
]

enqueue_keeps :
    (p : Bytes) (f : Flow)
    → length f.queue ≤ flow_queue
    → ((enqueue p f).key ≡ f.key) × (length (enqueue p f).queue ≤ flow_queue)
enqueue_keeps p f h = elim (Bool-cases (ltb (length f.queue) flow_queue)) [
  | inl e ↦ (rw e refl, rw e (ground (arith, length-append f.queue (p ∷ []))))
  | inr e ↦ (rw e refl, rw e h)
]

-- The two places that a store with one change has.
pub update_at :
    (s : ℕ → Flow) (j i : ℕ) (f : Flow)
    → ((j ≡ i) × (update s j f i ≡ f)) ⊎ ((j ≢ i) × (update s j f i ≡ s i))
update_at s j i f = elim (Bool-cases (j == i)) [
  | inl e ↦ inl (ground arith, rw e refl)
  | inr e ↦ inr (ground arith, rw e refl)
]

pub open_flow-IsSound :
    (t : IpText) (host : Bytes) (port : ℕ) (a : Association)
    → IsSound a
    → IsSound (open_flow t host port a).1
unfolding open_flow
open_flow-IsSound t host port a v =
    if_both (λ (r : Option ℕ × Association). IsSound r.1) a.closed (λ e. v)
      (λ e. record {
        entries = λ k i l. found k i l;
        emptied = λ c. absurd (cc);
        conns = v.conns;
        told = v.told;
        bounded = λ i. short i;
      })
  where
    update_next : (i : ℕ) → i < a.next → update a.store a.next (new_flow t host port) i ≡ a.store i
    update_next i low = elim (update_at a.store a.next i (new_flow t host port)) [
      | inl (j, e) ↦ absurd (omega arith)
      | inr (j, e) ↦ e
    ]

    found :
        (k : Bytes) (i : ℕ)
        → lookup k (insert (udp_flow_key t host port) a.next a.flows) ≡ some i
        → (i < suc a.next) × ((update a.store a.next (new_flow t host port) i).key ≡ k)
    found k i l =
        let l' = sym (lookup-insert (udp_flow_key t host port) k a.next a.flows) ∙ l in
        elim (Bool-cases (equal (udp_flow_key t host port) k)) [
          | inl e ↦
              (let n : a.next ≡ i = ground arith in
                let k' = (equal_iff (udp_flow_key t host port) k).0 e in
                (omega arith, rw ((==_iff a.next i).1 n) k'))
          | inr e ↦
              (let (low, key) = v.entries k i (ground arith) in
                (omega arith, rw ((update_next i low)) key))
        ]

    short : (i : ℕ) → length (update a.store a.next (new_flow t host port) i).queue ≤ flow_queue
    short i = elim (update_at a.store a.next i (new_flow t host port)) [
      | inl (j, e) ↦ rw e (omega arith)
      | inr (j, e) ↦ rw e (v.bounded i)
    ]

to_flow-IsSound :
    (payload : Bytes) (a : Association) (o : Option ℕ) → IsSound a → IsSound (to_flow payload a o)
to_flow-IsSound payload a none v = v
to_flow-IsSound payload a (some j) v = record {
  entries = λ k i l. let (low, key) = v.entries k i l in (low, (at i).0 ∙ key);
  emptied = v.emptied;
  conns = v.conns;
  told = v.told;
  bounded = λ i. (at i).1;
}
  where
    at :
        (i : ℕ)
        → ((update a.store j (enqueue payload (a.store j)) i).key ≡ (a.store i).key)
          × (length (update a.store j (enqueue payload (a.store j)) i).queue ≤ flow_queue)
    at i =
        let (key, size) = enqueue_keeps payload (a.store j) (v.bounded j) in
        elim (update_at a.store j i (enqueue payload (a.store j))) [
          | inl (same, e) ↦ (rw e (rw (sym same) key), rw e size)
          | inr (other, e) ↦ (rw e refl, rw e (v.bounded i))
        ]

-- Any change of the flows that keeps keys and queues.
pub restored-IsSound :
    (a : Association) (s : ℕ → Flow)
    → ((i : ℕ) → ((s i).key ≡ (a.store i).key) × ((s i).queue ≡ (a.store i).queue))
    → IsSound a
    → IsSound (record a { store = s })
restored-IsSound a s same v = record {
  entries = λ k i l. let (low, key) = v.entries k i l in (low, (same i).0 ∙ key);
  emptied = v.emptied;
  conns = v.conns;
  told = v.told;
  bounded = λ i. rw ((same i).1) (v.bounded i);
}

pub deliver-IsSound :
    (t : IpText) (b : Bytes) (a : Association) → IsSound a → IsSound (kept a (deliver t b a))
unfolding deliver
deliver-IsSound t b a v = go (parse_udp_datagram t b)
  where
    go : (m : Outcome (Bytes × ℕ × Bytes)) → IsSound (kept a (received t a m))
    go (ok (host, port, payload)) =
        to_flow-IsSound payload a (lookup (udp_flow_key t host port) a.flows) v
    go (throw e) = v
    go (panic p) = v
