-- ===== src/Udp/Association/Delivery.antt =====
-- About open and readLoop of udp_assoc.go: which flow a datagram goes to.
use wirez.Net.IpText.{IpText, IpTextLaws}
use wirez.Net.Ip.{is_nil}
use wirez.Net.HostPort.{join_host_port}
use wirez.Net.Decimal.{itoa}
use wirez.Prelude.{
  ℕ, ◌<◌, ◌≡◌, ◌≢◌, refl, sym, ap, ◌∙◌, ◌⊎◌, inl, inr, false, Option, none, some, [], ◌∷◌, ◌++◌,
  Bytes, length, lookup, lookup-insert, equal_refl, lt→ltb, ==_iff, if◌then◌else◌,
}
use wirez.Socks.Datagram.{parse_udp_datagram-udp_datagram, append_addr-ne_nil}
use wirez.Socks.Wire.{udp_datagram, parse_udp_datagram, append_addr}
use wirez.Throw.{Outcome, ok, throw, panic, bind-ok, ok-injective}
use wirez.Udp.Association.{
  Association, flow_queue, udp_flow_key, new_flow, open_flow, enqueue, to_flow, received, deliver,
  update,
}

-- Opening a flow in an association that is not closed returns it, leads its key to it in the map,
-- and stores it as a new flow.
pub open_flow_found :
    (t : IpText) (host : Bytes) (port : ℕ) (a : Association)
    → a.closed ≡ false
    → ((open_flow t host port a).0 ≡ some a.next)
      × (lookup (udp_flow_key t host port) (open_flow t host port a).1.flows ≡ some a.next)
      × ((open_flow t host port a).1.store a.next ≡ new_flow t host port)
unfolding open_flow
open_flow_found t host port a h = (
  rw h refl,
  rw h (
      lookup-insert (udp_flow_key t host port) (udp_flow_key t host port) a.next a.flows
      ∙ rw (equal_refl (udp_flow_key t host port)) refl),
  rw h (rw ((==_iff a.next a.next).1 refl) refl),
)

module _ (t : IpText) (laws : IpTextLaws t) where
  open t use {parse_ip, ip_string}

  -- The key of an address is the key of that address as a proxy spells it back.
  pub udp_flow_key-string :
      (host : Bytes) (port : ℕ)
      → parse_ip host ≢ []
      → udp_flow_key t (ip_string (parse_ip host)) port ≡ udp_flow_key t host port
  unfolding udp_flow_key
  udp_flow_key-string host port h = elim (laws.parse_length host) [
    | inl e ↦ absurd (h e)
    | inr l ↦
        rw (laws.parse_string16 (parse_ip host) (laws.parse_bytes host) l) (named (parse_ip host) h)
  ]
    where
      named :
          (ip : Bytes)
          → ip ≢ []
          → join_host_port (if is_nil ip then ip_string ip else ip_string ip) (itoa port)
            ≡ join_host_port (if is_nil ip then host else ip_string ip) (itoa port)
      named [] n = absurd (n refl)
      named (x ∷ xs) n = refl

  datagram_literal :
      (host payload d : Bytes) (port : ℕ)
      → udp_datagram t host port payload ≡ ok d
      → parse_ip host ≢ []
  unfolding udp_datagram
  datagram_literal host payload d port e =
      let (b, wrote, f) = bind-ok (append_addr t (0 ∷ 0 ∷ 0 ∷ []) host port) _ e in
      append_addr-ne_nil t laws (0 ∷ 0 ∷ 0 ∷ []) host port wrote

  deliver-parsed :
      (b host payload : Bytes) (port : ℕ) (a : Association)
      → parse_udp_datagram t b ≡ ok (host, port, payload)
      → deliver t b a ≡ ok (to_flow payload a (lookup (udp_flow_key t host port) a.flows))
  unfolding deliver
  deliver-parsed b host payload port a e = rw e refl

  -- If the key of a host and a port leads to a flow in the map, the datagram that is made of that
  -- host, that port and a payload, with a port below 65536, is queued at that flow as long as its
  -- queue has room, and nothing else changes: whichever way the host was spelled.
  pub deliver_reaches :
      (host payload d : Bytes) (port i : ℕ) (a : Association)
      → port < 65536
      → udp_datagram t host port payload ≡ ok d
      → lookup (udp_flow_key t host port) a.flows ≡ some i
      → length (a.store i).queue < flow_queue
      → deliver t d a
        ≡ ok (record a {
          store =
              update a.store i (record (a.store i) { queue = (a.store i).queue ++ payload ∷ [] });
        })
  deliver_reaches host payload d port i a p e found room =
      let same = udp_flow_key-string host port (datagram_literal host payload d port e) in
      deliver-parsed d (ip_string (parse_ip host)) payload port a
        (parse_udp_datagram-udp_datagram t laws host payload d port p e)
      ∙ ap (λ (k : Bytes). ok (to_flow payload a (lookup k a.flows))) same
      ∙ rw (found, lt→ltb (length (a.store i).queue) flow_queue room) refl

-- Whatever the relay sends, a datagram changes nothing, or it goes to the one flow that its source
-- address names, in full or not at all.
pub deliver_cases :
    (t : IpText) (b : Bytes) (a a' : Association)
    → deliver t b a ≡ ok a'
    → (a' ≡ a)
      ⊎ ((host payload : Bytes) × (port i : ℕ) × (parse_udp_datagram t b ≡ ok (host, port, payload))
          × (lookup (udp_flow_key t host port) a.flows ≡ some i)
          × (a' ≡ record a { store = update a.store i (enqueue payload (a.store i)) }))
unfolding deliver
deliver_cases t b a a' e = go (parse_udp_datagram t b) refl e
  where
    to :
        (host payload : Bytes) (port : ℕ) (o : Option ℕ)
        → parse_udp_datagram t b ≡ ok (host, port, payload)
        → lookup (udp_flow_key t host port) a.flows ≡ o
        → to_flow payload a o ≡ a'
        → (a' ≡ a)
          ⊎ ((host payload : Bytes) × (port i : ℕ) × (parse_udp_datagram t b
                ≡ ok (host, port, payload))
              × (lookup (udp_flow_key t host port) a.flows ≡ some i)
              × (a' ≡ record a { store = update a.store i (enqueue payload (a.store i)) }))
    to host payload port none p l s = inl (sym s)
    to host payload port (some i) p l s = inr (host, payload, port, i, p, l, sym s)

    go :
        (m : Outcome (Bytes × ℕ × Bytes))
        → parse_udp_datagram t b ≡ m
        → received t a m ≡ ok a'
        → (a' ≡ a)
          ⊎ ((host payload : Bytes) × (port i : ℕ) × (parse_udp_datagram t b
                ≡ ok (host, port, payload))
              × (lookup (udp_flow_key t host port) a.flows ≡ some i)
              × (a' ≡ record a { store = update a.store i (enqueue payload (a.store i)) }))
    go (ok (host, port, payload)) p s =
        to host payload port (lookup (udp_flow_key t host port) a.flows) p refl (ok-injective s)
    go (throw x) p s = inl (sym (ok-injective s))
    go (panic x) p s = absurd (cc)
