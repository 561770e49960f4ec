-- ===== src/Dns/Serve.antt =====
-- serveDNS and serveDNSTCP of resolver.go: the loops that start a goroutine for each datagram and
-- for each connection, and startDNSResolver, which starts the loops. The goroutines share one
-- dnsUpstreams; what forward comes to for each of them is that of Upstreams/Shared.
pub mod Laws
use wirez.Conn.{Conn, close}
use wirez.Dns.Policy.{DnsMessage, Policy, Header, allows_aaaa, empty_response}
use wirez.Dns.Server.{buffer_size}
use wirez.Dns.Upstreams.{Upstreams}
use wirez.Dns.Upstreams.Shared.{Call, waiting, asking, returned, Queries}
use wirez.Prelude.{
  ◌||◌, true, ℕ, zero, suc, Bool, not, Option, none, some, List, [], ◌∷◌, ◌++◌, Bytes, take,
  if◌then◌else◌,
}
use wirez.Throw.{
  Error, Result, value, failure, Outcome, ok, throw, panic, throw2, throw_if, ◌>>=◌, ◌>>◌,
}

-- A query with the address of its client.
abbrev pub Query : Type 0
Query = Bytes × Bytes

-- serveDNS, for what each ReadFrom gives: the queries of the goroutines, in the order in which they
-- are started, and the error that ends the loop, if one has.
unfoldable pub serve_dns : List (Result Query) → List Query × Option Error
serve_dns [] = ([], none)
serve_dns (value (query, addr) ∷ rs) =
    let (qs, e) = serve_dns rs in ((take buffer_size query, addr) ∷ qs, e)
serve_dns (failure e ∷ rs) = ([], some e)

-- serveDNSTCP, for what each Accept gives.
abbrev pub serve_dns_tcp : List (Result Conn) → List Conn × Option Error
serve_dns_tcp [] = ([], none)
serve_dns_tcp (value c ∷ rs) = let (cs, e) = serve_dns_tcp rs in (c ∷ cs, e)
serve_dns_tcp (failure e ∷ rs) = ([], some e)

-- startDNSResolver: the two sockets that the loops are started on, for what FilePacketConn, the
-- Close of its file, FileListener and the Close of its file give.
abbrev pub start_dns_resolver :
    {U T : Type 0} → Result U → Option Error → Result T → Option Error → Outcome (U × T)
start_dns_resolver udp udp_close tcp tcp_close = do
  conn ← throw2 udp
  throw_if udp_close
  listener ← throw2 tcp
  throw_if tcp_close
  ok (conn, listener)

-- The queries by their numbers; the empty query for a number that none has.
abbrev pub query_of : List Query → ℕ → Query
query_of [] n = ([], [])
query_of (q ∷ qs) zero = q
query_of (q ∷ qs) (suc n) = query_of qs n

module _ {Question Parser : Type 0} (lib : DnsMessage Question Parser) (p : Policy) where
  -- resolveDNS, for what its call of forward comes to, if it makes one.
  abbrev pub screen : Header → Question → Outcome Bytes → Outcome Bytes
  screen h question (ok resp) =
      if allows_aaaa lib p resp then ok resp else empty_response lib h question
  screen h question (throw e) = throw e
  screen h question (panic f) = panic f

  abbrev pub by_question : Header → Outcome Bytes → Result (Question × Parser) → Outcome Bytes
  by_question h r (failure e) = r
  by_question h r (value (question, _)) =
      if not (lib.is_aaaa question)
      then r
      else if not p.ipv6
      then empty_response lib h question
      else screen h question r

  abbrev pub by_header : Outcome Bytes → Result (Header × Parser) → Outcome Bytes
  by_header r (failure e) = r
  by_header r (value (h, q)) = by_question h r (lib.question q)

  abbrev pub resolved : Bytes → Outcome Bytes → Outcome Bytes
  resolved query r = by_header r (lib.start query)

  abbrev pub written_to : Bytes → Outcome Bytes → Outcome (Bytes × Bytes)
  written_to addr (ok resp) = ok (resp, addr)
  written_to addr (throw e) = throw e
  written_to addr (panic f) = panic f

  -- Whether resolveDNS calls forward.
  abbrev pub question_forwards : Result (Question × Parser) → Bool
  question_forwards (failure e) = true
  question_forwards (value (question, _)) = not (lib.is_aaaa question) || p.ipv6

  abbrev pub header_forwards : Result (Header × Parser) → Bool
  header_forwards (failure e) = true
  header_forwards (value (h, q)) = question_forwards (lib.question q)

  abbrev pub forwards : Bytes → Bool
  forwards query = header_forwards (lib.start query)

  abbrev pub of_call : Query → Call → Option (Outcome (Bytes × Bytes))
  of_call (query, addr) (returned r) = some (written_to addr (resolved query r))
  of_call (query, addr) _ = none

  -- The goroutine of a datagram: what handleDNSQuery writes, and where to, when its call of forward
  -- has returned, or at once if it makes none. An exception is logged.
  abbrev pub served : Query → Call → Option (Outcome (Bytes × Bytes))
  served (query, addr) call =
      if forwards query
      then of_call (query, addr) call
      else some (written_to addr (resolved query (ok [])))
