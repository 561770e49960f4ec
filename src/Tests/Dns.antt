-- ===== src/Tests/Dns.antt =====
-- Three upstreams of which the second answers, a small DNS message format, and one TCP exchange.
use wirez.Conn.{Conn}
use wirez.Dns.Policy.{
  Header, Body, aaaa, other, DnsMessage, Decreases, Policy, allows_aaaa, empty_response, resolve,
}
use wirez.Dns.Policy.Laws.{here, later, Reachable, Shown, allows_aaaa_iff, resolve_aaaa}
use wirez.Dns.Server.{handle_dns_query, stream_loop}
use wirez.Dns.Server.Laws.{frames, done, next, stream_loop_answers}
use wirez.Dns.Upstreams.{Upstreams, addr_of, index_of, forward}
use wirez.Dns.Upstreams.Failover.{InRange, Answers, forward_iff}
use wirez.Dns.Serve.{Query, served, query_of, serve_dns}
use wirez.Dns.Serve.Laws.{asks, serve_dns-alone}
use wirez.Dns.Upstreams.Shared.{returned, unasked, advance, run}
use wirez.Dns.Upstreams.Shared.Laws.{at, IsPreferable}
use wirez.Dns.Upstreams.Shared.Bound.{run_returns}
use wirez.Net.Ip.{IpNet}
use wirez.Prelude.{
  List, ℕ, ◌≡◌, ◌≢◌, ◌⊎◌, refl, ap, Bool, true, false, none, some, [], ◌∷◌, Bytes, bytes, arith,
  equal, length, ◌==◌, if◌then◌else◌,
}
use wirez.Throw.{
  net_closed, eof, deadline_exceeded, Fault, Result, value, failure, Outcome, ok, throw, panic,
}

abbrev ups : Upstreams
ups = record { addrs = bytes "a" ∷ bytes "b" ∷ bytes "c" ∷ []; preferred = 0 }

abbrev ask_b : Bytes → Outcome Bytes
ask_b addr = if equal addr (bytes "b") then ok (bytes "yes") else throw deadline_exceeded

abbrev ups_b : Upstreams
ups_b = record ups { preferred = 1 }

ups-InRange : InRange ups
ups-InRange = omega arith

ups_b-InRange : InRange ups_b
ups_b-InRange = omega arith

b-Answers : Answers ask_b ups 0 1 (bytes "yes")
unfolding equal
b-Answers = record {
  from_i = omega arith;
  in_list = omega arith;
  answer = refl;
  before = λ j lo hi. (
    deadline_exceeded,
    let z : j ≡ 0 = omega arith in ap (λ (n : ℕ). ask_b (addr_of ups (index_of ups 0 n))) z,
  );
}

forward_iff_example : forward ask_b ups ≡ (ok (bytes "yes"), ups_b)
forward_iff_example = (forward_iff ask_b ups ups-InRange (bytes "yes") ups_b).1 (1, b-Answers, refl)

ask_b_answers : ask_b (bytes "b") ≡ ok (bytes "yes")
unfolding equal
ask_b_answers = refl

ask_b_calm : (a : Bytes) (p : Fault) → ask_b a ≢ panic p
ask_b_calm a p = go (equal a (bytes "b"))
  where
    go :
        (b : Bool)
        → ◌≢◌ {A = Outcome Bytes}
            (if b then ok (bytes "yes") else throw deadline_exceeded)
            (panic p)
    go true e = cc
    go false e = cc

-- A message is one byte that starts it, its question's type, and a byte for each answer: 0, or the
-- low byte of an address in 10.0.0.0/24 behind the NAT64 prefix 0064:ff9b::/96.
abbrev header : Header
header = record {
  id = 7;
  response = true;
  op_code = 0;
  truncated = false;
  recursion_desired = true;
  recursion_available = true;
  rcode = 0;
}

abbrev low : Bytes → Bytes
low ip = 0 ∷ 100 ∷ 255 ∷ 155 ∷ 0 ∷ 0 ∷ 0 ∷ 0 ∷ 0 ∷ 0 ∷ 0 ∷ 0 ∷ ip

abbrev body : ℕ → Body
body z = if z == 0 then other else aaaa (low (10 ∷ 0 ∷ 0 ∷ z ∷ []))

abbrev next_of {ℓ} : {A : Type ℓ} → (ℕ → A) → Bytes → Result (A × Bytes)
next_of f [] = failure eof
next_of f (x ∷ xs) = value (f x, xs)

abbrev rest_of : Bytes → Result Bytes
rest_of [] = failure eof
rest_of (x ∷ xs) = value xs

abbrev small : DnsMessage ℕ Bytes
small = record {
  start = next_of (λ _. header);
  question = next_of (λ q. q);
  skip_all_questions = rest_of;
  answer = next_of body;
  is_aaaa = λ q. q == 28;
  build = λ h q. ok (1 ∷ q ∷ []);
  answers_left = length;
}

small-Decreases : Decreases small
small-Decreases [] q b e = absurd (cc)
small-Decreases (x ∷ xs) q b e = let same : xs ≡ q = cc in rw same (omega arith)

abbrev policy : Policy
policy = record {
  ipv6 = true;
  allow = record { ip = 10 ∷ 0 ∷ 0 ∷ 0 ∷ []; mask = 255 ∷ 0 ∷ 0 ∷ 0 ∷ [] } ∷ [];
  nat64 = some (record {
    ip = low (0 ∷ 0 ∷ 0 ∷ 0 ∷ []);
    mask =
        255 ∷ 255 ∷ 255 ∷ 255 ∷ 255 ∷ 255 ∷ 255 ∷ 255 ∷ 255 ∷ 255 ∷ 255 ∷ 255 ∷ 0 ∷ 0 ∷ 0 ∷ 0 ∷ [];
  });
}

abbrev answer_two : Bytes
answer_two = 1 ∷ 28 ∷ 0 ∷ 5 ∷ []

reachable : Reachable small policy (low (10 ∷ 0 ∷ 0 ∷ 5 ∷ []))
unfolding wirez.Net.Ip.any_contains wirez.Net.Ip.contains wirez.Dns.Policy.policy_ip
reachable = refl

two-Shown : Shown small policy answer_two
two-Shown = (
  header,
  28 ∷ 0 ∷ 5 ∷ [],
  0 ∷ 5 ∷ [],
  refl,
  refl,
  low (10 ∷ 0 ∷ 0 ∷ 5 ∷ []),
  later other (5 ∷ []) refl (here [] refl),
  reachable,
)

allows_aaaa_iff_example : allows_aaaa small policy answer_two ≡ true
allows_aaaa_iff_example = (allows_aaaa_iff small policy answer_two small-Decreases).1 two-Shown

abbrev always : Bytes → Bytes → Outcome Bytes
always query addr = ok answer_two

always_resolves : resolve small always policy ups (1 ∷ 28 ∷ []) ≡ (ok answer_two, ups)
unfolding resolve forward allows_aaaa wirez.Net.Ip.any_contains wirez.Net.Ip.contains
    wirez.Dns.Policy.policy_ip
always_resolves = refl

resolve_aaaa_example :
    (empty_response small header 28 ≡ ok answer_two)
    ⊎ ((true ≡ true)
        × (forward (always (1 ∷ 28 ∷ [])) ups ≡ (ok answer_two, ups))
        × Shown small policy answer_two)
resolve_aaaa_example =
    resolve_aaaa small always policy small-Decreases ups ups (1 ∷ 28 ∷ []) header (28 ∷ []) [] 28
      refl refl refl always_resolves

abbrev fresh_conn : Conn
fresh_conn = record {
  incoming = [];
  ending = eof;
  sent = [];
  write_error = none;
  closed = false;
  deadline = none;
}

-- A client that asks twice over one connection; the second upstream answers both.
abbrev counted : Upstreams → Bytes → Outcome Bytes × Upstreams
counted u query = (ok (b'r' ∷ query), u)

abbrev client : Conn
client = record fresh_conn { incoming = frames (bytes "a" ∷ bytes "bc" ∷ []) }

stream_loop_answers_example :
    stream_loop counted (λ k. k) 3 0 ups client
    ≡ some (
      ok tt,
      record fresh_conn { sent = frames (bytes "ra" ∷ bytes "rbc" ∷ []); deadline = some 2 },
      ups,
    )
stream_loop_answers_example =
    stream_loop_answers counted (λ k. k) 3 0 ups ups fresh_conn (bytes "a" ∷ bytes "bc" ∷ [])
      (bytes "ra" ∷ bytes "rbc" ∷ []) refl refl (omega arith, (omega arith, tt))
      (next refl (next refl done)) (omega arith)

-- Two queries of which the first is a step ahead: it finds the answering upstream, and the second,
-- which begins behind it, asks that one first.
abbrev ask_both : ℕ → Bytes → Outcome Bytes
ask_both n = ask_b

abbrev order : List ℕ
order = 0 ∷ 0 ∷ 0 ∷ 1 ∷ 1 ∷ []

order_runs : (run ask_both (unasked ups) order).calls 1 ≡ returned (ok (bytes "yes"))
unfolding advance equal
order_runs = refl

order_prefers : (run ask_both (unasked ups) order).upstreams.preferred ≡ 1
unfolding advance equal
order_prefers = refl

run_returns_example :
    (r : Outcome Bytes) × ((run ask_both (unasked ups) (0 ∷ 1 ∷ 0 ∷ 1 ∷ 0 ∷ 0 ∷ 0 ∷ [])).calls 0
      ≡ returned r)
run_returns_example = run_returns ask_both ups 0 (0 ∷ 1 ∷ 0 ∷ 1 ∷ 0 ∷ 0 ∷ 0 ∷ []) (omega arith)

-- Two datagrams, and then the socket is closed. The second query is answered to its own client.
abbrev datagrams : List (Result Query)
datagrams =
    value (1 ∷ 2 ∷ [], bytes "c1") ∷ value (1 ∷ 3 ∷ [], bytes "c2") ∷ failure net_closed ∷ []

abbrev ask_any : Bytes → Bytes → Outcome Bytes
ask_any query = ask_b

second_served :
    served small policy
      (query_of (serve_dns datagrams).0 1)
      ((run (asks small ask_any policy datagrams ups) (unasked ups) order).calls 1)
    ≡ some (ok (bytes "yes", bytes "c2"))
unfolding serve_dns advance equal
second_served = refl

serve_dns-alone_example :
    (i : ℕ) × IsPreferable (asks small ask_any policy datagrams ups) ups i
    × ((handle_dns_query small ask_any policy
          (query_of (serve_dns datagrams).0 1).1
          (query_of (serve_dns datagrams).0 1).0
          (at (asks small ask_any policy datagrams ups) ups i)).0
        ≡ ok (bytes "yes", bytes "c2"))
serve_dns-alone_example =
    serve_dns-alone small ask_any policy datagrams ups order 1 (ok (bytes "yes", bytes "c2"))
      second_served
