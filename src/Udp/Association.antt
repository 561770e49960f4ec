-- ===== src/Udp/Association.antt =====
-- udpAssociation and udpFlow. A flow is a number, its place in `store`, so that two flows of one key
-- are told apart as the code tells pointers apart. Each operation is what the code does between
-- taking and releasing `mu`, with the closing of connections and flows that follows it.
pub mod Sound
pub mod Invariant
pub mod Delivery
pub mod Reading
use wirez.Net.Decimal.{itoa}
use wirez.Net.HostPort.{join_host_port}
use wirez.Net.Ip.{is_nil}
use wirez.Net.IpText.{IpText}
use wirez.Prelude.{
  take, ◌≡◌, ℕ, suc, ◌+◌, Bool, true, false, not, ◌&&◌, Option, none, some, List, [], ◌∷◌, ◌++◌,
  Bytes, length, lookup, insert, remove, ltb, ◌==◌, if◌then◌else◌,
}
use wirez.Socks.Wire.{udp_datagram, parse_udp_datagram}
use wirez.Throw.{
  Error, net_closed, deadline_exceeded, Result, value, failure, Outcome, ok, throw, panic,
}

-- udpFlowQueue.
abbrev pub flow_queue : ℕ
flow_queue = 1024

pub record Flow : Type 0 where
  pub key : Bytes
  pub host : Bytes
  pub port : ℕ
  -- the channels `in` and `done`
  pub queue : List Bytes
  pub done : Bool
  -- `none` for the zero time
  pub deadline : Option ℕ

-- `control` and `relay` are closed together; `forgotten` records the call of `forget`.
pub record Association : Type 0 where
  pub src : Bytes
  pub flows : List (Bytes × ℕ)
  pub closed : Bool
  pub conns_closed : Bool
  pub forgotten : Bool
  pub store : ℕ → Flow
  pub next : ℕ

abbrev pub no_flow : Flow
no_flow = record { key = []; host = []; port = 0; queue = []; done = true; deadline = none }

-- newUDPAssociation.
abbrev pub new_association : Bytes → Association
new_association src = record {
  src = src;
  flows = [];
  closed = false;
  conns_closed = false;
  forgotten = false;
  store = λ _. no_flow;
  next = 0;
}

abbrev pub update : (ℕ → Flow) → ℕ → Flow → ℕ → Flow
update s i f j = if i == j then f else s j

abbrev pub mark_done : Flow → Flow
mark_done f = record f { done = true }

-- `select { case f.in <- p: default: }`
abbrev pub enqueue : Bytes → Flow → Flow
enqueue p f = if ltb (length f.queue) flow_queue then record f { queue = f.queue ++ p ∷ [] } else f

abbrev pub to_flow : Bytes → Association → Option ℕ → Association
to_flow payload a none = a
to_flow payload a (some i) = record a { store = update a.store i (enqueue payload (a.store i)) }

module _ (t : IpText) where
  open t use {parse_ip, ip_string}

  -- udpFlowKey: an address literal is spelled as it is printed.
  unfoldable pub udp_flow_key : Bytes → ℕ → Bytes
  udp_flow_key host port =
      join_host_port (if is_nil (parse_ip host) then host else ip_string (parse_ip host))
        (itoa port)

  -- The flow that `open` makes.
  abbrev pub new_flow : Bytes → ℕ → Flow
  new_flow host port = record {
    key = udp_flow_key host port;
    host = host;
    port = port;
    queue = [];
    done = false;
    deadline = none;
  }

  -- udpAssociation.open.
  unfoldable pub open_flow : Bytes → ℕ → Association → Option ℕ × Association
  open_flow host port a = if a.closed then (none, a) else (
    some a.next,
    record a {
      flows = insert (udp_flow_key host port) a.next a.flows;
      store = update a.store a.next (new_flow host port);
      next = suc a.next;
    },
  )

  abbrev pub received : Association → Outcome (Bytes × ℕ × Bytes) → Outcome Association
  received a (ok (host, port, payload)) =
      ok (to_flow payload a (lookup (udp_flow_key host port) a.flows))
  received a (throw e) = ok a
  received a (panic p) = panic p

  -- One round of readLoop for a datagram that the relay delivered. What does not parse is dropped,
  -- and so is what belongs to no flow.
  unfoldable pub deliver : Bytes → Association → Outcome Association
  deliver b a = received a (parse_udp_datagram t b)

  -- udpFlow.Write: the datagram that goes to the relay.
  unfoldable pub flow_write : ℕ → Bytes → Association → Outcome Bytes
  flow_write i b a =
      let f = a.store i in if f.done then throw net_closed else udp_datagram t f.host f.port b

-- `a.flows[f.key] == f`
abbrev pub is_flow : ℕ → Option ℕ → Bool
is_flow i none = false
is_flow i (some j) = i == j

abbrev pub is_empty {ℓ} : {A : Type ℓ} → List A → Bool
is_empty [] = true
is_empty (x ∷ xs) = false

abbrev pub without : ℕ → Association → List (Bytes × ℕ)
without i a =
    if is_flow i (lookup (a.store i).key a.flows) then remove (a.store i).key a.flows else a.flows

-- closeFlow.
unfoldable pub close_flow : ℕ → Association → Association
close_flow i a =
    let flows = without i a in
    if is_empty flows && not a.closed
    then record a { flows = flows; closed = true; conns_closed = true; forgotten = true }
    else record a { flows = flows }

-- udpFlow.Close.
unfoldable pub flow_close : ℕ → Association → Association
unfolding close_flow
flow_close i a = close_flow i (record a { store = update a.store i (mark_done (a.store i)) })

-- `for _, f := range flows { f.once.Do(func() { close(f.done) }) }`
unfoldable pub wake : List (Bytes × ℕ) → (ℕ → Flow) → ℕ → Flow
wake [] s = s
wake ((k, i) ∷ fs) s = wake fs (update s i (mark_done (s i)))

-- shutdown.
unfoldable pub shutdown : Association → Association
unfolding wake
shutdown a = if a.closed then a else record a {
  flows = [];
  closed = true;
  conns_closed = true;
  forgotten = true;
  store = wake a.flows a.store;
}

-- `case p := <-f.in: return copy(b, p), nil`, for a buffer of `n` bytes.
abbrev pub taken : ℕ → ℕ → Association → List Bytes → Option Bytes × Association
taken n i a [] = (none, a)
taken n i a (p ∷ ps) =
    (some (take n p), record a { store = update a.store i (record (a.store i) { queue = ps }) })

unfoldable pub flow_take : ℕ → ℕ → Association → Option Bytes × Association
flow_take n i a = taken n i a (a.store i).queue

-- udpFlow.Read: any case of the select that is ready. A deadline that is set passes at some time.
pub data Reads (n i : ℕ) (a : Association) : Result Bytes → Association → Type 0 where
  takes : (p : Bytes) (b : Association) → flow_take n i a ≡ (some p, b) → Reads n i a (value p) b
  finds_done : (a.store i).done ≡ true → Reads n i a (failure net_closed) a
  times_out : (d : ℕ) → (a.store i).deadline ≡ some d → Reads n i a (failure deadline_exceeded) a

-- udpFlow.SetDeadline, and SetReadDeadline, which calls it.
unfoldable pub flow_set_deadline : ℕ → Option ℕ → Association → Association
flow_set_deadline i d a = record a {
  store = update a.store i (record (a.store i) { deadline = d });
}

-- What the association does, and where it then stands.
pub data Op : Type 0 where
  opens : Bytes → ℕ → Op
  delivers : Bytes → Op
  closes : ℕ → Op
  reads : ℕ → ℕ → Op
  sets_deadline : ℕ → Option ℕ → Op
  shuts : Op

abbrev kept : Association → Outcome Association → Association
kept a (ok b) = b
kept a (throw e) = a
kept a (panic p) = a

unfoldable pub step : IpText → Op → Association → Association
unfolding open_flow deliver flow_close shutdown flow_take flow_set_deadline
step t (opens host port) a = (open_flow t host port a).1
step t (delivers b) a = kept a (deliver t b a)
step t (closes i) a = flow_close i a
step t (reads n i) a = (flow_take n i a).1
step t (sets_deadline i d) a = flow_set_deadline i d a
step t shuts a = shutdown a

unfoldable pub run : IpText → List Op → Association → Association
run t [] a = a
run t (o ∷ os) a = run t os (step t o a)
