-- ===== src/Dns/Serve/Laws.antt =====
-- About the queries that serveDNS of resolver.go answers at the same time.
use wirez.Dns.Policy.{
  empty_response, DnsMessage, Policy, Header, screened, asked_for, parsed, resolve,
}
use wirez.Dns.Serve.{
  header_forwards, question_forwards, of_call, forwards, Query, serve_dns, query_of, screen,
  by_question, by_header, resolved, written_to, served,
}
use wirez.Dns.Server.{handle_dns_query, replied}
use wirez.Dns.Upstreams.{Upstreams, forward}
use wirez.Dns.Upstreams.Shared.{Call, waiting, asking, returned, unasked, run}
use wirez.Dns.Upstreams.Shared.Laws.{was_first, IsPreferable, at, run-alone}
use wirez.Prelude.{
  arith, inr, inl, false, Bool-cases, ℕ, ◌≡◌, refl, sym, ap, ◌∙◌, Bool, true, not, some, List, [],
  Bytes, if◌then◌else◌,
}
use wirez.Throw.{Result, value, failure, Outcome, ok, throw, panic}

some_injective : {A : Type 0} {x y : A} → some x ≡ some y → x ≡ y
some_injective e = cc e

if-first :
    {A B : Type 0} (b : Bool) (x y : A × B) → (if b then x else y).0 ≡ (if b then x.0 else y.0)
if-first true x y = refl
if-first false x y = refl

module _ {Question Parser : Type 0} (lib : DnsMessage Question Parser)
    (ask : Bytes → Bytes → Outcome Bytes) (p : Policy) where
  screened-screen :
      (h : Header) (question : Question) (r : Outcome Bytes × Upstreams)
      → (screened lib p h question r).0 ≡ screen lib p h question r.0
  screened-screen h question (ok x, u) = refl
  screened-screen h question (throw x, u) = refl
  screened-screen h question (panic x, u) = refl

  by_question_lem :
      (u : Upstreams) (query : Bytes) (h : Header) (q : Result (Question × Parser))
      → (asked_for lib ask p u query h q).0 ≡ by_question lib p h (forward (ask query) u).0 q
  by_question_lem u query h (failure e) = refl
  by_question_lem u query h (value (question, q)) =
      let asked = forward (ask query) u in
      if-first (not (lib.is_aaaa question)) asked _
      ∙ ap (λ x. if not (lib.is_aaaa question) then asked.0 else x)
          (if-first (not p.ipv6) (empty_response lib h question, u) _
            ∙ ap (λ x. if not p.ipv6 then empty_response lib h question else x)
                (screened-screen h question asked))

  resolve-resolved :
      (u : Upstreams) (query : Bytes)
      → (resolve lib ask p u query).0 ≡ resolved lib p query (forward (ask query) u).0
  unfolding resolve
  resolve-resolved u query = go (lib.start query)
    where
      go :
          (s : Result (Header × Parser))
          → (parsed lib ask p u query s).0 ≡ by_header lib p (forward (ask query) u).0 s
      go (failure e) = refl
      go (value (h, q)) = by_question_lem u query h (lib.question q)

  handle-written_to :
      (addr query : Bytes) (u : Upstreams)
      → (handle_dns_query lib ask p addr query u).0
        ≡ written_to lib p addr (resolved lib p query (forward (ask query) u).0)
  handle-written_to addr query u =
      go (resolve lib ask p u query) ∙ ap (written_to lib p addr) (resolve-resolved u query)
    where
      go :
          (r : Outcome Bytes × Upstreams) → (replied lib ask p addr r).0 ≡ written_to lib p addr r.0
      go (ok x, u) = refl
      go (throw x, u) = refl
      go (panic x, u) = refl

  -- A query that is not forwarded is answered without the upstreams.
  unforwarded :
      (query : Bytes) (r s : Outcome Bytes)
      → forwards lib p query ≡ false
      → resolved lib p query r ≡ resolved lib p query s
  unforwarded query r s = go (lib.start query)
    where
      of_question :
          (h : Header) (q : Result (Question × Parser))
          → question_forwards lib p q ≡ false
          → by_question lib p h r q ≡ by_question lib p h s q
      of_question h (failure e) n = absurd (cc n)
      of_question h (value (question, q)) n = ground arith

      go :
          (x : Result (Header × Parser))
          → header_forwards lib p x ≡ false
          → by_header lib p r x ≡ by_header lib p s x
      go (failure e) n = absurd (cc n)
      go (value (h, q)) n = of_question h (lib.question q) n

  of_call-returned :
      (q : Query) (c : Call) (w : Outcome (Bytes × Bytes))
      → of_call lib p q c ≡ some w
      → (r : Outcome Bytes) × (c ≡ returned r) × (written_to lib p q.1 (resolved lib p q.0 r) ≡ w)
  of_call-returned (query, addr) (returned r) w e = (r, refl, cc e)
  of_call-returned (query, addr) waiting w e = absurd (cc e)
  of_call-returned (query, addr) (asking s i es) w e = absurd (cc e)

  served_forwarded :
      (q : Query) (c : Call) → forwards lib p q.0 ≡ true → served lib p q c ≡ of_call lib p q c
  served_forwarded (query, addr) c f = rw f refl

  served_at_once :
      (q : Query) (c : Call) (r : Outcome Bytes)
      → forwards lib p q.0 ≡ false
      → served lib p q c ≡ some (written_to lib p q.1 (resolved lib p q.0 r))
  served_at_once (query, addr) c r f =
      rw f refl ∙ ap (λ x. some (written_to lib p addr x)) (unforwarded query (ok []) r f)

  module _ (rs : List (Result Query)) (first : Upstreams) where
    -- The upstreams, asked for the n-th query.
    abbrev pub asks : ℕ → Bytes → Outcome Bytes
    asks n = ask (query_of (serve_dns rs).0 n).0

    -- Whatever the goroutines of the other datagrams do in between, what a datagram's goroutine
    -- writes, and where to, or what it throws, is what handleDNSQuery comes to over the upstreams
    -- with some preferred one, and that one is the first preferred one or one in range that
    -- gives an answer to some query.
    pub serve_dns-alone :
        (l : List ℕ) (n : ℕ) (w : Outcome (Bytes × Bytes))
        → served lib p (query_of (serve_dns rs).0 n) ((run asks (unasked first) l).calls n) ≡ some w
        → (i : ℕ) × IsPreferable asks first i
          × ((handle_dns_query lib ask p
                (query_of (serve_dns rs).0 n).1
                (query_of (serve_dns rs).0 n).0
                (at asks first i)).0
              ≡ w)
    serve_dns-alone l n w e =
        let q = query_of (serve_dns rs).0 n in
        elim (Bool-cases (forwards lib p q.0)) [
          | inl f ↦
              let (r, back, wrote) = of_call-returned q _ w (sym (served_forwarded q _ f) ∙ e) in
              let (i, may, same) = run-alone asks first l n r back in
              (
                i,
                may,
                handle-written_to q.1 q.0 (at asks first i)
                    ∙ ap (λ x. written_to lib p q.1 (resolved lib p q.0 x)) same
                    ∙ wrote,
              )
          | inr f ↦ (
            first.preferred,
            was_first refl,
            handle-written_to q.1 q.0 first
                ∙ some_injective (sym (served_at_once q _ (forward (ask q.0) first).0 f) ∙ e),
          )
        ]
