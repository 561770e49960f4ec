-- ===== src/Udp/Slots/Stale.antt =====
-- About the slots of socks5.go that hold a closed association, step by step.
use wirez.Prelude.{
  ℕ, suc, ◌<◌, ◌≡◌, ◌≢◌, inl, inr, refl, sym, ap, ◌∙◌, true, false, none, some, List, arith, Bytes,
  lookup, remove, lookup-insert, lookup-remove, equal, equal_iff, ◌==◌, ==_iff, if◌then◌else◌,
  if_both, Bool-cases,
}
use wirez.Throw.{Error}
use wirez.Udp.Slots.{
  Slot, Hub, at, new_slot, begin, make, assign, fail, finish, holds, slot_holds, forget, die,
  Pending, Step, begins, makes, assigns, fails, finishes, dies,
}

pub at_other : {A : Type 0} (s : ℕ → A) (i j : ℕ) (x : A) → i ≢ j → at s i x j ≡ s j
at_other s i j x n = elim (Bool-cases (i == j)) [
  | inl e ↦ absurd (n ((==_iff i j).0 e))
  | inr e ↦ rw e refl
]

pub at_same : {A : Type 0} (s : ℕ → A) (i : ℕ) (x : A) → at s i x i ≡ x
at_same s i x = rw ((==_iff i i).1 refl) refl

-- The slot of `src` is ready, and the association in it is closed.
pub record IsStale (h : Hub) (src : Bytes) (i a : ℕ) : Type 0 where
  pub found : lookup src h.slots ≡ some i
  pub old_slot : i < h.next_slot
  pub old_assoc : a < h.next_assoc
  pub ready : (h.slot i).ready ≡ true
  pub assigned : (h.slot i).assoc ≡ some a
  pub built : (h.slot i).made ≡ some a
  pub closed : (h.assoc a).closed ≡ true

-- Whoever is still in associate has the slot of its source, with no association in it.
abbrev pub IsOwned : Hub → Type 0
IsOwned h =
    (i : ℕ) → Pending h i → (lookup (h.slot i).src h.slots ≡ some i) × ((h.slot i).assoc ≡ none)

pub lookup-other :
    (src k : Bytes) (i : ℕ) (m : List (Bytes × ℕ)) → src ≢ k → lookup k (remove src m) ≡ lookup k m
lookup-other src k i m n = lookup-remove src k m ∙ ground (arith, equal_iff src k)

-- A step of another slot leaves slot `i`.
IsStale-slot :
    (h : Hub) (src : Bytes) (i a j : ℕ) (s : Slot)
    → j ≢ i
    → IsStale h src i a
    → IsStale (record h { slot = at h.slot j s }) src i a
IsStale-slot h src i a j s n v =
    let same = at_other h.slot j i s n in
    record {
      found = v.found;
      old_slot = v.old_slot;
      old_assoc = v.old_assoc;
      ready = rw same v.ready;
      assigned = rw same v.assigned;
      built = rw same v.built;
      closed = v.closed;
    }

begin-IsStale :
    (h : Hub) (src k : Bytes) (i a : ℕ)
    → lookup k h.slots ≡ none
    → IsStale h src i a
    → IsStale (begin k h) src i a
begin-IsStale h src k i a absent v =
    let old : i < h.next_slot = v.old_slot in
    let same : at h.slot h.next_slot (new_slot k) i ≡ h.slot i =
      at_other h.slot h.next_slot i (new_slot k) (λ e. omega arith) in
    record {
      found = lookup-insert k src h.next_slot h.slots ∙ kept;
      old_slot = let o : i < suc h.next_slot = omega (arith, old) in o;
      old_assoc = v.old_assoc;
      ready = rw same v.ready;
      assigned = rw same v.assigned;
      built = rw same v.built;
      closed = v.closed;
    }
  where
    kept : (if equal k src then some h.next_slot else lookup src h.slots) ≡ some i
    kept = elim (Bool-cases (equal k src)) [
      | inl e ↦ absurd (
          cc (sym (ap (λ (s : Bytes). lookup s h.slots) ((equal_iff k src).0 e)) ∙ absent, v.found))
      | inr e ↦ rw e v.found
    ]

make-IsStale :
    (h : Hub) (src : Bytes) (i a j : ℕ)
    → Pending h j
    → IsStale h src i a
    → IsStale (make j h) src i a
make-IsStale h src i a j (low, unmade, calm) v =
    let w = IsStale-slot h src i a j (record (h.slot j) { made = some h.next_assoc }) other v in
    let old : a < h.next_assoc = v.old_assoc in
    let same =
      at_other h.assoc h.next_assoc a (record { src = (h.slot j).src; closed = false })
        (λ e. omega arith) in
    record {
      found = w.found;
      old_slot = w.old_slot;
      old_assoc = let o : a < suc h.next_assoc = omega (arith, old) in o;
      ready = w.ready;
      assigned = w.assigned;
      built = w.built;
      closed = rw same v.closed;
    }
  where
    other : j ≢ i
    other e = cc (ap (λ (n : ℕ). (h.slot n).made) e, unmade, v.built)

fail-IsStale :
    (h : Hub) (src : Bytes) (i a j : ℕ) (e : Error)
    → IsOwned h
    → Pending h j
    → IsStale h src i a
    → IsStale (fail j e h) src i a
fail-IsStale h src i a j x own p v =
    let w = IsStale-slot h src i a j (record (h.slot j) { exc = some x }) other v in
    record {
      found = lookup-other (h.slot j).src src i h.slots apart ∙ v.found;
      old_slot = w.old_slot;
      old_assoc = w.old_assoc;
      ready = w.ready;
      assigned = w.assigned;
      built = w.built;
      closed = w.closed;
    }
  where
    other : j ≢ i
    other e = cc (ap (λ (n : ℕ). (h.slot n).made) e, p.1, v.built)

    apart : (h.slot j).src ≢ src
    apart e =
        other (ground (arith, sym (own j p).0 ∙ ap (λ (s : Bytes). lookup s h.slots) e ∙ v.found))

-- Of two associations, forgetting the one leaves the slot of the other.
forget-IsStale :
    (h : Hub) (src : Bytes) (i a b : ℕ) → b ≢ a → IsStale h src i a → IsStale (forget b h) src i a
forget-IsStale h src i a b n v =
    if_both (λ (k : Hub). IsStale k src i a) (slot_holds b h (lookup (h.assoc b).src h.slots))
      (λ e. record {
        found = lookup-other (h.assoc b).src src i h.slots (apart e) ∙ v.found;
        old_slot = v.old_slot;
        old_assoc = v.old_assoc;
        ready = v.ready;
        assigned = v.assigned;
        built = v.built;
        closed = v.closed;
      })
      (λ e. v)
  where
    apart : slot_holds b h (lookup (h.assoc b).src h.slots) ≡ true → (h.assoc b).src ≢ src
    apart e same =
        let here = ap (λ (s : Bytes). lookup s h.slots) same ∙ v.found in
        let e' : holds b (h.slot i).assoc ≡ true = sym (ap (slot_holds b h) here) ∙ e in
        let e'' : (b == a) ≡ true = sym (ap (holds b) v.assigned) ∙ e' in n ((==_iff b a).0 e'')

die-IsStale :
    (h : Hub) (src : Bytes) (i a b : ℕ)
    → (h.assoc b).closed ≡ false
    → IsStale h src i a
    → IsStale (die b h) src i a
die-IsStale h src i a b c v =
    forget-IsStale (record h { assoc = at h.assoc b (record (h.assoc b) { closed = true }) }) src i
      a b other
      (record {
        found = v.found;
        old_slot = v.old_slot;
        old_assoc = v.old_assoc;
        ready = v.ready;
        assigned = v.assigned;
        built = v.built;
        closed = rw (at_other h.assoc b a (record (h.assoc b) { closed = true }) other) v.closed;
      })
  where
    other : b ≢ a
    other e = cc (ap (λ (n : ℕ). (h.assoc n).closed) e, c, v.closed)

assign-IsStale :
    (h : Hub) (src : Bytes) (i a j : ℕ)
    → (h.slot j).assoc ≡ none
    → IsStale h src i a
    → IsStale (assign j h) src i a
assign-IsStale h src i a j empty v =
    IsStale-slot h src i a j (record (h.slot j) { assoc = (h.slot j).made }) other v
  where
    other : j ≢ i
    other e = cc (ap (λ (n : ℕ). (h.slot n).assoc) e, empty, v.assigned)

finish-IsStale :
    (h : Hub) (src : Bytes) (i a j : ℕ) → IsStale h src i a → IsStale (finish j h) src i a
finish-IsStale h src i a j v = elim (Bool-cases (j == i)) [
  | inr e ↦
      IsStale-slot h src i a j (record (h.slot j) { ready = true })
        (λ s. absurd (cc (e, (==_iff j i).1 s))) v
  | inl e ↦
      let same : j ≡ i = (==_iff j i).0 e in
      let here : at h.slot j (record (h.slot j) { ready = true }) i
          ≡ record (h.slot i) { ready = true } =
        rw same (at_same h.slot i (record (h.slot i) { ready = true })) in
      record {
        found = v.found;
        old_slot = v.old_slot;
        old_assoc = v.old_assoc;
        ready = rw here refl;
        assigned = rw here v.assigned;
        built = rw here v.built;
        closed = v.closed;
      }
]

pub Step-IsStale :
    (h k : Hub) (src : Bytes) (i a : ℕ)
    → IsOwned h
    → Step h k
    → IsStale h src i a
    → IsStale k src i a
Step-IsStale h _ src i a own (begins s absent) v = begin-IsStale h src s i a absent v
Step-IsStale h _ src i a own (makes j p) v = make-IsStale h src i a j p v
Step-IsStale h _ src i a own (assigns j b low made empty) v = assign-IsStale h src i a j empty v
Step-IsStale h _ src i a own (fails j e p) v = fail-IsStale h src i a j e own p v
Step-IsStale h _ src i a own (finishes j low d) v = finish-IsStale h src i a j v
Step-IsStale h _ src i a own (dies b low c) v = die-IsStale h src i a b c v
