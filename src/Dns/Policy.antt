-- ===== src/Dns/Policy.antt =====
-- dnsPolicy, resolveDNS, emptyResponse, isTruncated and forwardDNS. The DNS message parser and
-- builder (golang.org/x/net/dns/dnsmessage) are a parameter.
pub mod Laws
use wirez.Dns.Upstreams.{Upstreams, forward}
use wirez.Net.Ip.{IpNet, contains, any_contains}
use wirez.Prelude.{
  ℕ, zero, suc, ◌<◌, ◌≡◌, Bool, true, false, not, ◌&&◌, Option, none, some, List, [], Bytes, bytes,
  take, drop, ◌==◌, if◌then◌else◌,
}
use wirez.Throw.{Error, Result, value, failure, Outcome, ok, throw, panic, throw2, ◌>>=◌}

-- The fields of dnsmessage.Header that are read or set; `rcode` 0 is RCodeSuccess.
pub record Header : Type 0 where
  pub id : ℕ
  pub response : Bool
  pub op_code : ℕ
  pub truncated : Bool
  pub recursion_desired : Bool
  pub recursion_available : Bool
  pub rcode : ℕ

-- A resource's body: an AAAAResource with its sixteen bytes, or any other.
pub data Body : Type 0 where
  aaaa : Bytes → Body
  other : Body

-- dnsmessage: a parser is a value that each call moves on. `answers_left` bounds how many calls of
-- Answer can succeed. `build` is NewBuilder, StartQuestions, Question and Finish.
pub record DnsMessage (Question Parser : Type 0) : Type 0 where
  pub start : Bytes → Result (Header × Parser)
  pub question : Parser → Result (Question × Parser)
  pub skip_all_questions : Parser → Result Parser
  pub answer : Parser → Result (Body × Parser)
  pub is_aaaa : Question → Bool
  pub build : Header → Question → Outcome Bytes
  pub answers_left : Parser → ℕ

-- Each resource that Answer returns uses up one of those that are left.
abbrev pub Decreases : {Q P : Type 0} → DnsMessage Q P → Type 0
Decreases {Q} {P} lib =
    (p q : P) (b : Body) → lib.answer p ≡ value (b, q) → lib.answers_left q < lib.answers_left p

pub record Policy : Type 0 where
  pub ipv6 : Bool
  pub allow : List IpNet
  pub nat64 : Option IpNet

-- The address that is compared with the bypass networks: unmapped if it lies in the NAT64 prefix.
unfoldable pub policy_ip : Option IpNet → Bytes → Bytes
policy_ip none ip = ip
policy_ip (some n) ip = if contains n ip then take 4 (drop 12 ip) else ip

module _ {Question Parser : Type 0} (lib : DnsMessage Question Parser) where
  -- One resource, and the rest of the loop.
  abbrev pub keep : Policy → Result (Body × Parser) → (Parser → Bool) → Bool
  keep p (failure e) rest = false
  keep p (value (other, q)) rest = rest q
  keep p (value (aaaa ip, q)) rest =
      let later = rest q in if any_contains p.allow (policy_ip p.nat64 ip) then true else later

  -- The `for` loop of allowsAAAA.
  unfoldable pub allows_loop : Policy → ℕ → Parser → Bool
  allows_loop p zero q = false
  allows_loop p (suc fuel) q = keep p (lib.answer q) (λ r. allows_loop p fuel r)

  abbrev pub after_questions : Policy → Result Parser → Bool
  after_questions p (failure e) = false
  after_questions p (value q) = allows_loop p (suc (lib.answers_left q)) q

  abbrev pub after_start : Policy → Result (Header × Parser) → Bool
  after_start p (failure e) = false
  after_start p (value (h, q)) = after_questions p (lib.skip_all_questions q)

  -- allowsAAAA.
  unfoldable pub allows_aaaa : Policy → Bytes → Bool
  unfolding allows_loop
  allows_aaaa p resp = after_start p (lib.start resp)

  -- The header of emptyResponse.
  abbrev pub empty_header : Header → Header
  empty_header query = record {
    id = query.id;
    response = true;
    op_code = query.op_code;
    truncated = false;
    recursion_desired = query.recursion_desired;
    recursion_available = true;
    rcode = 0;
  }

  abbrev pub empty_response : Header → Question → Outcome Bytes
  empty_response query question = lib.build (empty_header query) question

  -- What the upstream answered to an AAAA query, if the policy lets it through.
  abbrev pub screened :
      Policy → Header → Question → Outcome Bytes × Upstreams → Outcome Bytes × Upstreams
  screened p h question (ok resp, u) =
      (if allows_aaaa p resp then ok resp else empty_response h question, u)
  screened p h question (throw e, u) = (throw e, u)
  screened p h question (panic f, u) = (panic f, u)

  module _ (ask : Bytes → Bytes → Outcome Bytes) where
    abbrev pub asked_for :
        Policy → Upstreams → Bytes → Header → Result (Question × Parser) → Outcome Bytes × Upstreams
    asked_for p u query h (failure e) = forward (ask query) u
    asked_for p u query h (value (question, _)) =
        if not (lib.is_aaaa question)
        then forward (ask query) u
        else if not p.ipv6
        then (empty_response h question, u)
        else screened p h question (forward (ask query) u)

    abbrev pub parsed :
        Policy → Upstreams → Bytes → Result (Header × Parser) → Outcome Bytes × Upstreams
    parsed p u query (failure e) = forward (ask query) u
    parsed p u query (value (h, q)) = asked_for p u query h (lib.question q)

    -- resolveDNS, for the query and the upstreams; `ask` is forwardDNS.
    unfoldable pub resolve : Policy → Upstreams → Bytes → Outcome Bytes × Upstreams
    resolve p u query = parsed p u query (lib.start query)

  abbrev truncated_of : Result (Header × Parser) → Bool
  truncated_of (failure e) = false
  truncated_of (value (h, q)) = h.truncated

  -- isTruncated.
  unfoldable pub is_truncated : Bytes → Bool
  is_truncated resp = truncated_of (lib.start resp)

  -- forwardDNS over the two exchanges, forwardDNSUDP and forwardDNSTCP.
  unfoldable pub forward_dns :
      (Bytes → Bytes → Outcome Bytes)
      → (Bytes → Bytes → Outcome Bytes)
      → Bytes
      → Bytes
      → Outcome Bytes
  unfolding is_truncated
  forward_dns udp tcp query upstream = do
    resp ← udp query upstream
    if not (is_truncated resp) then ok resp else tcp query upstream
