-- ===== src/Socks/Associate.antt =====
-- associate of socks5UDPConnector: the control connection and the relay's socket.
pub mod Relay
pub mod Laws
use wirez.Conn.{Conn, Io, ◌>>=◌, ◌>>◌, lift, set_deadline, apply_deadline, close}
use wirez.Net.Decimal.{itoa}
use wirez.Net.HostPort.{join_host_port, split_host_port}
use wirez.Net.Ip.{is_nil, is_unspecified}
use wirez.Net.IpText.{IpText}
use wirez.Prelude.{[], ℕ, not, ◌&&◌, Option, none, some, Bytes, bytes, if◌then◌else◌}
use wirez.Socks.Session.{Userinfo, ProxyAddr, Connector, handshake, request}
use wirez.Throw.{Error, Result, value, failure, Outcome, ok, throw, panic, throw2}
use wirez.Throw

-- How it ended, the control connection and the relay's, as far as they were dialed.
abbrev pub Associated : Type 0
Associated = Outcome (Unit {0}) × Option Conn × Option Conn

-- `defer CloseOnThrow(relay)` and `defer CloseOnThrow(control)`, around the last step.
abbrev pub both_settled : Conn → Outcome (Unit {0}) × Conn → Associated
both_settled relay (ok x, control) = (ok x, some control, some relay)
both_settled relay (throw e, control) = (throw e, some (close control), some (close relay))
both_settled relay (panic p, control) = (panic p, some (close control), some (close relay))

abbrev pub relayed : Conn → Result Conn → Associated
relayed control (value relay) = both_settled relay (set_deadline none control)
relayed control (failure e) = (throw e, some (close control), none)

module _ (t : IpText) where
  open t use {parse_ip}

  -- The host of the relay: the proxy's own where it names an unspecified address.
  abbrev pub relay_host : Bytes → Bytes → Outcome Bytes
  relay_host proxy bind_host =
      if not (is_nil (parse_ip bind_host)) && is_unspecified (parse_ip bind_host)
      then Throw.◌>>=◌ (throw2 (split_host_port proxy)) (λ (host, _). ok host)
      else ok bind_host

  abbrev pub relay_addr : Bytes → Bytes × ℕ → Outcome Bytes
  relay_addr proxy (bind_host, bind_port) =
      Throw.◌>>=◌ (relay_host proxy bind_host) (λ host. ok (join_host_port host (itoa bind_port)))

  -- Up to the relay's address, on the control connection.
  unfoldable pub negotiate : Option ℕ → Option Userinfo → Bytes → Io Bytes
  negotiate deadline auth proxy = do
    apply_deadline deadline
    handshake auth
    bound ← request t 3 (bytes "0.0.0.0") 0
    lift (relay_addr proxy bound)

  abbrev pub negotiated : Connector → Outcome Bytes × Conn → Associated
  negotiated udp (ok addr, control) = relayed control (udp (bytes "udp") addr)
  negotiated udp (throw e, control) = (throw e, some (close control), none)
  negotiated udp (panic p, control) = (panic p, some (close control), none)

  abbrev pub controlled : Connector → Option ℕ → ProxyAddr → Result Conn → Associated
  controlled udp deadline proxy (value control) =
      negotiated udp (negotiate deadline proxy.auth proxy.address control)
  controlled udp deadline proxy (failure e) = (throw e, none, none)

  -- associate, over the TCP and the UDP connector of the hops before.
  unfoldable pub associate : Connector → Connector → Option ℕ → ProxyAddr → Associated
  unfolding negotiate
  associate tcp udp deadline proxy = controlled udp deadline proxy (tcp (bytes "tcp") proxy.address)

-- The goroutine that associate starts: what the control connection still gives is discarded, and
-- when it gives no more, both connections are closed.
abbrev pub released : Conn → Conn → Conn × Conn
released control relay = (close (record control { incoming = [] }), close relay)
