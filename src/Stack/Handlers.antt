-- ===== src/Stack/Handlers.antt =====
-- setTCPHandler, setUDPHandler, handleTCP and handleUDP, and TimeoutConn of transport.go. What a
-- handler does to the stack and to its connections is a trace, in the order in which it does it;
-- what gVisor, the connector and the transporter give is a parameter.
pub mod Laws
use wirez.Conn.{Conn, Io, set_deadline}
use wirez.Net.Decimal.{itoa}
use wirez.Net.HostPort.{join_host_port}
use wirez.Prelude.{
  ℕ, ◌+◌, Bool, true, false, Option, none, some, List, [], ◌∷◌, ◌++◌, Bytes, bytes, ltb,
  if◌then◌else◌,
}
use wirez.Throw.{Error, Fault, Result, value, failure, Outcome, ok, throw, panic, throw_if}

-- stack.TransportEndpointID, its addresses as their String prints them.
pub record EndpointId : Type 0 where
  pub local_address : Bytes
  pub local_port : ℕ
  pub remote_address : Bytes
  pub remote_port : ℕ

-- endpointAddress and sourceAddress.
abbrev pub endpoint_address : EndpointId → Bytes
endpoint_address i = join_host_port i.local_address (itoa i.local_port)

abbrev pub source_address : EndpointId → Bytes
source_address i = join_host_port i.remote_address (itoa i.remote_port)

pub record Timeouts : Type 0 where
  pub tcp_idle : ℕ
  pub udp_idle : ℕ

-- A connection as it is relayed: with the timeout of the TimeoutConn around it, if there is one.
pub data Event : Type 0 where
  creates_endpoint : Event
  completes : Bool → Event
  keeps_alive : Event
  sets_receive_buffer : ℕ → Event
  relays : Option ℕ → Option ℕ → Event
  closes_local closes_dst cancels : Event
  logs : Error → Event

abbrev pub Handled : Type 0
Handled = Outcome (Unit {0}) × List Event

abbrev pub first : Event → Handled → Handled
first e (o, es) = (o, e ∷ es)

-- A deferred call, which runs however the rest ends.
abbrev pub deferred : Event → Handled → Handled
deferred e (o, es) = (o, es ++ e ∷ [])

-- Try with a Catch that logs.
abbrev pub logged : Handled → Handled
logged (ok x, es) = (ok x, es)
logged (throw e, es) = (ok tt, es ++ logs e ∷ [])
logged (panic p, es) = (panic p, es)

abbrev pub is_error : Option Error → Bool
is_error none = false
is_error (some e) = true

-- NewTimeoutConn on both sides, if the timeout is not zero.
abbrev pub wrapped : ℕ → Option ℕ
wrapped timeout = if ltb 0 timeout then some timeout else none

-- udpEndpointReceiveBuffer.
abbrev pub receive_buffer : ℕ
receive_buffer = 4194304

-- `transport` stands for Transporter.Transport on two connections with these timeouts.
module _ (transport : Option ℕ → Option ℕ → Option Error) where
  abbrev pub relay : Option ℕ → Handled
  relay timeout = first (relays timeout timeout) (throw_if (transport timeout timeout), [])

  -- Behind CreateEndpoint, with its error.
  abbrev pub with_endpoint : ℕ → Option Error → Handled
  with_endpoint idle (some e) = (throw e, [])
  with_endpoint idle none = first keeps_alive (deferred closes_local (relay (wrapped idle)))

  -- Behind the dial.
  abbrev pub with_dst : {A : Type 0} → ℕ → Option Error → Outcome (Result A) → Handled
  with_dst idle ep (ok (failure e)) = (ok tt, completes true ∷ [])
  with_dst idle ep (ok (value c)) =
      deferred closes_dst
        (first creates_endpoint (first (completes (is_error ep)) (with_endpoint idle ep)))
  with_dst idle ep (throw e) = (throw e, [])
  with_dst idle ep (panic p) = (panic p, [])

  -- handleTCP, for the error of CreateEndpoint.
  unfoldable pub handle_tcp :
      {A : Type 0}
      → (Bytes → Bytes → Outcome (Result A))
      → Timeouts
      → Option Error
      → EndpointId
      → Handled
  handle_tcp dial k ep id =
      deferred cancels (with_dst k.tcp_idle ep (dial (bytes "tcp") (endpoint_address id)))

  -- The callback of setTCPHandler.
  abbrev pub forward_tcp_request :
      {A : Type 0}
      → (Bytes → Bytes → Outcome (Result A))
      → Timeouts
      → Option Error
      → EndpointId
      → Handled
  forward_tcp_request dial k ep id = logged (handle_tcp dial k ep id)

  abbrev pub with_udp_dst : {A : Type 0} → ℕ → Outcome (Result A) → Handled
  with_udp_dst idle (ok (failure e)) = (ok tt, [])
  with_udp_dst idle (ok (value c)) = deferred closes_dst (relay (some idle))
  with_udp_dst idle (throw e) = (throw e, [])
  with_udp_dst idle (panic p) = (panic p, [])

  -- handleUDP; the dial is given the source of the flow.
  unfoldable pub handle_udp :
      {A : Type 0} → (Bytes → Bytes → Bytes → Outcome (Result A)) → Timeouts → EndpointId → Handled
  handle_udp dial k id = deferred closes_local (
      deferred cancels
        (with_udp_dst k.udp_idle (dial (source_address id) (bytes "udp") (endpoint_address id))))

  -- The callback of setUDPHandler, which takes every packet.
  abbrev pub forward_udp_request :
      {A : Type 0}
      → (Bytes → Bytes → Bytes → Outcome (Result A))
      → Timeouts
      → Option Error
      → EndpointId
      → Bool × Handled
  forward_udp_request dial k (some e) id = (true, (ok tt, logs e ∷ []))
  forward_udp_request dial k none id =
      (true, first (sets_receive_buffer receive_buffer) (logged (handle_udp dial k id)))

-- TimeoutConn.Read and Write: the deadline first, whose error is left to the operation.
unfoldable pub timeout_io {ℓ} : {A : Type ℓ} → ℕ → ℕ → Io A → Io A
timeout_io now timeout operation c = operation (set_deadline (some (now + timeout)) c).1
