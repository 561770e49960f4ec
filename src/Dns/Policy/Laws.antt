-- ===== src/Dns/Policy/Laws.antt =====
-- About allowsAAAA and resolveDNS of resolver.go.
use mathlib.Core.Path.{subst}
use wirez.Dns.Policy.{
  Header, Body, aaaa, other, DnsMessage, Decreases, Policy, policy_ip, keep, allows_loop,
  after_questions, after_start, screened, allows_aaaa, empty_response, resolve,
}
use wirez.Dns.Upstreams.{Upstreams, forward}
use wirez.Net.Ip.{any_contains}
use wirez.Prelude.{
  ℕ, zero, suc, ◌<◌, ◌≡◌, ◌↔◌, refl, ap, ◌∙◌, ◌⊎◌, inl, inr, true, arith, Bytes, Bool-cases,
}
use wirez.Throw.{Error, Result, value, failure, Outcome, ok, throw, panic}

module _ {Question Parser : Type 0} (lib : DnsMessage Question Parser) where
  -- The parser still has, somewhere ahead, an AAAA resource with this address.
  pub data Yields (ip : Bytes) : Parser → Type 0 where
    here : {q : Parser} (r : Parser) → lib.answer q ≡ value (aaaa ip, r) → Yields ip q
    later :
        {q : Parser} (b : Body) (r : Parser)
        → lib.answer q ≡ value (b, r)
        → Yields ip r
        → Yields ip q

  -- The address counts as reachable without the proxy.
  abbrev pub Reachable : Policy → Bytes → Type 0
  Reachable p ip = any_contains p.allow (policy_ip p.nat64 ip) ≡ true

  Result-cases :
      {A : Type 0} (m : Result A) → ((a : A) × (m ≡ value a)) ⊎ ((e : Error) × (m ≡ failure e))
  Result-cases (value a) = inl (a, refl)
  Result-cases (failure e) = inr (e, refl)

  allows_sound :
      (p : Policy) (fuel : ℕ) (q : Parser)
      → allows_loop lib p fuel q ≡ true
      → (ip : Bytes) × Yields ip q × Reachable p ip
  unfolding allows_loop
  allows_sound p zero q e = absurd (cc)
  allows_sound p (suc fuel) q e = go (lib.answer q) refl e (λ r. allows_sound p fuel r)
    where
      go :
          (m : Result (Body × Parser))
          → lib.answer q ≡ m
          → keep lib p m (λ r. allows_loop lib p fuel r) ≡ true
          → ((r : Parser)
              → allows_loop lib p fuel r ≡ true
              → (ip : Bytes) × Yields ip r × Reachable p ip)
          → (ip : Bytes) × Yields ip q × Reachable p ip
      go (failure x) s f ih = absurd (cc)
      go (value (other, r)) s f ih = let (ip, y, k) = ih r f in (ip, later other r s y, k)
      go (value (aaaa ip, r)) s f ih =
          elim (Bool-cases (any_contains p.allow (policy_ip p.nat64 ip))) [
            | inl k ↦ (ip, here r s, k)
            | inr k ↦ let (ip', y, k') = ih r (rw k at f) in (ip', later (aaaa ip) r s y, k')
          ]

  allows_complete :
      (p : Policy) (d : Decreases lib) (fuel : ℕ) (q : Parser) (ip : Bytes)
      → lib.answers_left q < fuel
      → Yields ip q
      → Reachable p ip
      → allows_loop lib p fuel q ≡ true
  unfolding allows_loop
  allows_complete p d zero q ip l y k = absurd (omega arith)
  allows_complete p d (suc fuel) q ip l (here r s) k = rw s (rw k refl)
  allows_complete p d (suc fuel) q ip l (later other r s y) k =
      rw s (allows_complete p d fuel r ip (omega (arith, d q r other s)) y k)
  allows_complete p d (suc fuel) q ip l (later (aaaa x) r s y) k =
      let rest = allows_complete p d fuel r ip (omega (arith, d q r (aaaa x) s)) y k in
      rw s (elim (Bool-cases (any_contains p.allow (policy_ip p.nat64 x))) [
        | inl yes' ↦ rw yes' refl
        | inr no' ↦ rw no' rest
      ])

  -- The parts of an answer that the policy lets through.
  abbrev pub Shown : Policy → Bytes → Type 0
  Shown p resp =
      (h : Header) × (s q : Parser) × (lib.start resp ≡ value (h, s))
      × (lib.skip_all_questions s ≡ value q)
      × (ip : Bytes) × Yields ip q
      × Reachable p ip

  Shown-start :
      (p : Policy) (resp : Bytes) (m : Result (Header × Parser))
      → lib.start resp ≡ m
      → after_start lib p m ≡ true
      → Shown p resp
  Shown-start p resp (failure e) s f = absurd (cc)
  Shown-start p resp (value (h, q)) s f = skipped (lib.skip_all_questions q) refl f
    where
      skipped :
          (m : Result Parser)
          → lib.skip_all_questions q ≡ m
          → after_questions lib p m ≡ true
          → Shown p resp
      skipped (failure e) t g = absurd (cc)
      skipped (value r) t g =
          let (ip, y, k) = allows_sound p (suc (lib.answers_left r)) r g in
          (h, q, r, s, t, ip, y, k)

  -- An answer is let through exactly when it parses up to its answers and, before the first resource
  -- that does not, holds an AAAA address that is reachable without the proxy. The loop needs no
  -- more rounds than there are resources.
  pub allows_aaaa_iff :
      (p : Policy) (resp : Bytes) → Decreases lib → (allows_aaaa lib p resp ≡ true) ↔ Shown p resp
  unfolding allows_aaaa
  allows_aaaa_iff p resp d = (Shown-start p resp (lib.start resp) refl, from)
    where
      from : Shown p resp → after_start lib p (lib.start resp) ≡ true
      from (h, s, q, e, f, ip, y, k) =
          rw (e, f) (allows_complete p d (suc (lib.answers_left q)) q ip (omega arith) y k)

  module _ (ask : Bytes → Bytes → Outcome Bytes) (p : Policy) (d : Decreases lib) where
    ok-first :
        {b : Bytes} {o : Outcome Bytes} {u v : Upstreams}
        → ◌≡◌ {A = Outcome Bytes × Upstreams} (o, u) (ok b, v)
        → (o ≡ ok b) × (u ≡ v)
    ok-first e = (
      ap (λ (r : Outcome Bytes × Upstreams). r.0) e,
      ap (λ (r : Outcome Bytes × Upstreams). r.1) e,
    )

    ok-injective : {x y : Bytes} → ok x ≡ ok y → x ≡ y
    ok-injective e = cc

    -- What the container gets for an AAAA query is the empty answer to its question, or, with IPv6
    -- enabled, the upstreams' own answer, and then that answer holds an address that is reachable
    -- without the proxy.
    pub resolve_aaaa :
        (u u' : Upstreams) (query : Bytes) {resp : Bytes} (h : Header) (q r : Parser)
        (question : Question)
        → lib.start query ≡ value (h, q)
        → lib.question q ≡ value (question, r)
        → lib.is_aaaa question ≡ true
        → resolve lib ask p u query ≡ (ok resp, u')
        → (empty_response lib h question ≡ ok resp)
          ⊎ ((p.ipv6 ≡ true) × (forward (ask query) u ≡ (ok resp, u')) × Shown p resp)
    unfolding resolve
    resolve_aaaa u u' query {resp} h q r question s t a e = elim (Bool-cases p.ipv6) [
      | inr no6 ↦ inl (ok-first (simp no6 at (rw (s, t, a) at e))).0
      | inl six ↦ screen six (forward (ask query) u) refl (simp six at (rw (s, t, a) at e))
    ]
      where
        screen :
            p.ipv6 ≡ true
            → (m : Outcome Bytes × Upstreams) → forward (ask query) u ≡ m
            → screened lib p h question m ≡ (ok resp, u')
            → (empty_response lib h question ≡ ok resp)
              ⊎ ((p.ipv6 ≡ true) × (forward (ask query) u ≡ (ok resp, u')) × Shown p resp)
        screen six (throw x, v) f g = absurd (cc (ok-first g).0)
        screen six (panic x, v) f g = absurd (cc (ok-first g).0)
        screen six (ok x, v) f g = elim (Bool-cases (allows_aaaa lib p x)) [
          | inr hidden ↦ inl (ok-first (rw hidden at g)).0
          | inl shown ↦
              let same : ◌≡◌ {A = Outcome Bytes × Upstreams} (ok x, v) (ok resp, u') =
                rw shown at g in
              inr (
                six,
                f ∙ same,
                subst (Shown p) (ok-injective (ok-first same).0) ((allows_aaaa_iff p x d).0 shown),
              )
        ]
