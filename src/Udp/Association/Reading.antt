-- ===== src/Udp/Association/Reading.antt =====
-- About Read of udp_assoc.go behind readLoop: the order of what a flow gets.
use wirez.Net.IpText.{IpText, IpTextLaws}
use wirez.Prelude.{
  ℕ, ◌+◌, ◌<◌, ◌≤◌, ◌≡◌, refl, sym, ap, ◌∙◌, some, List, [], ◌∷◌, ◌++◌, append_assoc, append-nil,
  arith, Bytes, length, length-append, take, lookup, map, ==_iff,
}
use wirez.Socks.Wire.{udp_datagram}
use wirez.Throw.{Outcome, ok, ◌>>=◌}
use wirez.Udp.Association.{Association, Flow, flow_queue, udp_flow_key, deliver, update, flow_take}
use wirez.Udp.Association.Delivery.{deliver_reaches}

update_same : (s : ℕ → Flow) (i : ℕ) (f : Flow) → update s i f i ≡ f
update_same s i f = rw ((==_iff i i).1 refl) refl

-- readLoop, for a sequence of datagrams.
abbrev pub deliver_all : IpText → List Bytes → Association → Outcome Association
deliver_all t [] a = ok a
deliver_all t (d ∷ ds) a = deliver t d a >>= deliver_all t ds

-- A sequence of reads with a buffer of `n` bytes, each of which takes a datagram.
pub data TakesAll (n i : ℕ) : Association → List Bytes → Association → Type 0 where
  done : {a : Association} → TakesAll n i a [] a
  next :
      {a b c : Association} {p : Bytes} {ps : List Bytes}
      → flow_take n i a ≡ (some p, b)
      → TakesAll n i b ps c
      → TakesAll n i a (p ∷ ps) c

-- The datagrams that a peer sends from one address.
pub data Sends (t : IpText) (host : Bytes) (port : ℕ) : List Bytes → List Bytes → Type 0 where
  done : Sends t host port [] []
  next :
      {p d : Bytes} {ps ds : List Bytes}
      → udp_datagram t host port p ≡ ok d
      → Sends t host port ps ds
      → Sends t host port (p ∷ ps) (d ∷ ds)

takes_queue :
    (n i : ℕ) (a : Association) (ps : List Bytes)
    → (a.store i).queue ≡ ps
    → (c : Association) × TakesAll n i a (map (take n) ps) c × ((c.store i).queue ≡ [])
unfolding flow_take
takes_queue n i a [] e = (a, done, e)
takes_queue n i a (p ∷ ps) e =
    let b = record a { store = update a.store i (record (a.store i) { queue = ps }) } in
    let (c, ts, z) =
      takes_queue n i b ps
        (ap (λ (f : Flow). f.queue) (update_same a.store i (record (a.store i) { queue = ps }))) in
    (c, next (rw e refl) ts, z)

module _ (t : IpText) (laws : IpTextLaws t) where
  delivers_queue :
      (host : Bytes) (port i : ℕ) (a : Association) (ps ds : List Bytes)
      → port < 65536
      → Sends t host port ps ds
      → lookup (udp_flow_key t host port) a.flows ≡ some i
      → length (a.store i).queue + length ps ≤ flow_queue
      → (b : Association) × (deliver_all t ds a ≡ ok b)
        × ((b.store i).queue ≡ (a.store i).queue ++ ps)
  delivers_queue host port i a _ _ p done found room = (a, refl, sym (append-nil (a.store i).queue))
  delivers_queue host port i a _ _ p (next {p = x} {d = d} {ps = ps} {ds = ds} sent rest) found
        room =
      let f = record (a.store i) { queue = (a.store i).queue ++ x ∷ [] } in
      let b = record a { store = update a.store i f } in
      let reached = deliver_reaches t laws host x d port i a p sent found (omega arith) in
      let queued : (b.store i).queue ≡ (a.store i).queue ++ x ∷ [] =
        ap (λ (g : Flow). g.queue) (update_same a.store i f) in
      let (c, all, q) =
        delivers_queue host port i b ps ds p rest found
          (omega (arith, ap length queued, length-append (a.store i).queue (x ∷ []))) in
      (c, rw reached all, q ∙ rw queued (append_assoc (a.store i).queue (x ∷ []) ps))

  -- The datagrams that arrive from the address of a flow whose queue is empty, with a port below
  -- 65536 and not more of them than the queue holds, are read by that many reads in the order in
  -- which they arrived, each cut to the buffer it is read into, and the queue is empty again.
  pub reads_in_order :
      (host : Bytes) (port i n : ℕ) (a : Association) (ps ds : List Bytes)
      → port < 65536
      → Sends t host port ps ds
      → lookup (udp_flow_key t host port) a.flows ≡ some i
      → (a.store i).queue ≡ []
      → length ps ≤ flow_queue
      → (b c : Association) × (deliver_all t ds a ≡ ok b)
        × TakesAll n i b (map (take n) ps) c
        × ((c.store i).queue ≡ [])
  reads_in_order host port i n a ps ds p sent found fresh room =
      let (b, all, q) =
        delivers_queue host port i a ps ds p sent found (omega (arith, ap length fresh)) in
      let (c, ts, z) = takes_queue n i b ps (q ∙ rw fresh refl) in (b, c, all, ts, z)
