-- ===== src/Dns/Server.antt =====
-- The servers of resolver.go: one TCP client, one datagram, and the two exchanges with an upstream
-- over a connection that is dialed and closed. Which deadline a round sets is a parameter.
pub mod Laws
use wirez.Conn.{Conn, Io, pure, lift, ◌>>=◌, ◌>>◌, write, set_deadline, close}
use wirez.Dns.Policy.{DnsMessage, Policy, resolve}
use wirez.Dns.Stream.{read_dns_message, write_dns_message, forward_tcp}
use wirez.Dns.Upstreams.{Upstreams}
use wirez.Prelude.{ℕ, zero, suc, Option, none, some, List, [], ◌∷◌, ◌++◌, Bytes, bytes, take}
use wirez.Socks.Session.{Connector, Dialed}
use wirez.Throw.{Error, Result, value, failure, Outcome, ok, throw, panic, throw2}

-- What a handler leaves: how it ended, its connection, and the upstreams.
abbrev pub Served : Type 0
Served = Outcome (Unit {0}) × Conn × Upstreams

-- `answer` stands for resolveDNS with its policy.
module _ (answer : Upstreams → Bytes → Outcome Bytes × Upstreams) (idle : ℕ → ℕ) where
  -- The end of a round, with the rounds that follow.
  abbrev pub written :
      (Upstreams → Conn → Option Served) → Upstreams → Outcome (Unit {0}) × Conn → Option Served
  written rest u (ok _, c) = rest u c
  written rest u (throw e, c) = some (throw e, c, u)
  written rest u (panic p, c) = some (panic p, c, u)

  abbrev pub answered :
      (Upstreams → Conn → Option Served) → Conn → Outcome Bytes × Upstreams → Option Served
  answered rest c (ok resp, u) = written rest u (write_dns_message resp c)
  answered rest c (throw e, u) = some (throw e, c, u)
  answered rest c (panic p, u) = some (panic p, c, u)

  -- Any exception of the read ends the handler with no error.
  abbrev pub asked :
      (Upstreams → Conn → Option Served) → Upstreams → Outcome Bytes × Conn → Option Served
  asked rest u (ok query, c) = answered rest c (answer u query)
  asked rest u (throw e, c) = some (ok tt, c, u)
  asked rest u (panic p, c) = some (panic p, c, u)

  abbrev pub armed :
      (Upstreams → Conn → Option Served) → Upstreams → Outcome (Unit {0}) × Conn → Option Served
  armed rest u (ok _, c) = asked rest u (read_dns_message c)
  armed rest u (throw e, c) = some (throw e, c, u)
  armed rest u (panic p, c) = some (panic p, c, u)

  -- The loop of handleDNSStream, from round `k` on; `none` if the fuel does not last.
  unfoldable pub stream_loop : ℕ → ℕ → Upstreams → Conn → Option Served
  stream_loop zero k u c = none
  stream_loop (suc fuel) k u c = armed (stream_loop fuel (suc k)) u (set_deadline (some (idle k)) c)

module _ {Question Parser : Type 0} (lib : DnsMessage Question Parser)
    (ask : Bytes → Bytes → Outcome Bytes) (p : Policy) where
  -- handleDNSStream.
  abbrev pub handle_dns_stream : (ℕ → ℕ) → ℕ → Upstreams → Conn → Option Served
  handle_dns_stream idle fuel u c = stream_loop (resolve lib ask p) idle fuel 0 u c

  -- What handleDNSQuery writes, with the address that it is written to.
  abbrev pub replied : Bytes → Outcome Bytes × Upstreams → Outcome (Bytes × Bytes) × Upstreams
  replied addr (ok resp, u) = (ok (resp, addr), u)
  replied addr (throw e, u) = (throw e, u)
  replied addr (panic f, u) = (panic f, u)

  -- handleDNSQuery, up to the result of its WriteTo.
  abbrev pub handle_dns_query : Bytes → Bytes → Upstreams → Outcome (Bytes × Bytes) × Upstreams
  handle_dns_query addr query u = replied addr (resolve lib ask p u query)

-- `defer conn.Close()` on a connection that is dialed first.
abbrev pub over_closing {ℓ} : {A : Type ℓ} → Result Conn → Io A → Dialed A
over_closing (value c) m = ((m c).0, some (close (m c).1))
over_closing (failure e) m = (throw e, none)

-- dnsBufferSize.
abbrev pub buffer_size : ℕ
buffer_size = 4096

-- forwardDNSTCP.
abbrev pub forward_dns_tcp : Connector → ℕ → Bytes → Bytes → Dialed Bytes
forward_dns_tcp net deadline query upstream =
    over_closing (net (bytes "tcp") upstream) (forward_tcp deadline query)

-- forwardDNSUDP, where `received` is the datagram that conn.Read gives, or its error.
unfoldable pub forward_udp : ℕ → Bytes → Result Bytes → Io Bytes
forward_udp deadline query received = do
  set_deadline (some deadline)
  write query
  datagram ← lift (throw2 received)
  pure (take buffer_size datagram)

abbrev pub forward_dns_udp : Connector → ℕ → Bytes → Bytes → Result Bytes → Dialed Bytes
forward_dns_udp net deadline query upstream received =
    over_closing (net (bytes "udp") upstream) (forward_udp deadline query received)
