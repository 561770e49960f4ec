-- ===== src/Udp/Slots/Owned.antt =====
-- About the goroutines of socks5.go that are still in associate, and the slots of their sources.
use wirez.Prelude.{
  ℕ, suc, ◌<◌, ◌≡◌, ◌≢◌, inl, inr, refl, sym, ap, ◌∙◌, true, false, none, some, arith, Bytes,
  lookup, insert, lookup-insert, equal, equal_iff, equal_refl, ◌==◌, ==_iff, if◌then◌else◌, if_both,
  Bool-cases,
}
use wirez.Throw.{Error}
use wirez.Udp.Slots.{
  Slot, Hub, at, new_slot, new_hub, begin, make, assign, fail, finish, holds, slot_holds, forget,
  die, Pending, Step, begins, makes, assigns, fails, finishes, dies,
}
use wirez.Udp.Slots.Stale.{IsOwned, at_other, at_same, lookup-other}

pub new_hub-IsOwned : IsOwned new_hub
new_hub-IsOwned i p = let low : i < 0 = p.0 in absurd (omega arith)

-- A change of a slot that is not pending any more keeps the others.
other-Pending :
    (h : Hub) (j i : ℕ) (s : Slot)
    → j ≢ i
    → Pending (record h { slot = at h.slot j s }) i
    → Pending h i
other-Pending h j i s n (low, made, exc) =
    let same = at_other h.slot j i s n in
    (low, sym (ap (λ (x : Slot). x.made) same) ∙ made, sym (ap (λ (x : Slot). x.exc) same) ∙ exc)

-- The slot of one that is pending, through a change of another.
owned_at :
    (h : Hub) (j i : ℕ) (s : Slot)
    → IsOwned h
    → j ≢ i
    → Pending (record h { slot = at h.slot j s }) i
    → (lookup (at h.slot j s i).src h.slots ≡ some i) × ((at h.slot j s i).assoc ≡ none)
owned_at h j i s own n p =
    let same = at_other h.slot j i s n in
    let (found, empty) = own i (other-Pending h j i s n p) in (rw same found, rw same empty)

begin-IsOwned : (h : Hub) (k : Bytes) → lookup k h.slots ≡ none → IsOwned h → IsOwned (begin k h)
begin-IsOwned h k absent own i p = elim (Bool-cases (h.next_slot == i)) [
  | inl e ↦
      let n : h.next_slot ≡ i = (==_iff h.next_slot i).0 e in
      let here : at h.slot h.next_slot (new_slot k) i ≡ new_slot k = rw e refl in
      let found : lookup k (insert k h.next_slot h.slots) ≡ some h.next_slot =
        lookup-insert k k h.next_slot h.slots ∙ rw (equal_refl k) refl in
      (rw here (found ∙ ap some n), rw here refl)
  | inr e ↦
      let low : i < suc h.next_slot = p.0 in
      let before : i < h.next_slot = ground (arith, low) in
      let same : at h.slot h.next_slot (new_slot k) i ≡ h.slot i = rw e refl in
      let (found, empty) = own i (
        before,
        sym (ap (λ (x : Slot). x.made) same) ∙ p.1,
        sym (ap (λ (x : Slot). x.exc) same) ∙ p.2,
      ) in
      (rw same (lookup-insert k (h.slot i).src h.next_slot h.slots ∙ kept found), rw same empty)
]
  where
    kept :
        lookup (h.slot i).src h.slots ≡ some i
        → (if equal k (h.slot i).src then some h.next_slot else lookup (h.slot i).src h.slots)
          ≡ some i
    kept f = elim (Bool-cases (equal k (h.slot i).src)) [
      | inl e ↦ absurd (
          cc (
            sym (ap (λ (s : Bytes). lookup s h.slots) ((equal_iff k (h.slot i).src).0 e)) ∙ absent,
            f,
          ))
      | inr e ↦ rw e f
    ]

make-IsOwned : (h : Hub) (j : ℕ) → IsOwned h → IsOwned (make j h)
make-IsOwned h j own i p =
    owned_at h j i (record (h.slot j) { made = some h.next_assoc }) own other p
  where
    other : j ≢ i
    other e = cc (
      p.1,
      ap (λ (x : Slot). x.made)
          (ap (at h.slot j (record (h.slot j) { made = some h.next_assoc })) (sym e)
            ∙ at_same h.slot j (record (h.slot j) { made = some h.next_assoc })),
    )

assign-IsOwned : (h : Hub) (j a : ℕ) → (h.slot j).made ≡ some a → IsOwned h → IsOwned (assign j h)
assign-IsOwned h j a m own i p =
    owned_at h j i (record (h.slot j) { assoc = (h.slot j).made }) own other p
  where
    other : j ≢ i
    other e = cc (
      p.1,
      m,
      ap (λ (x : Slot). x.made)
          (ap (at h.slot j (record (h.slot j) { assoc = (h.slot j).made })) (sym e)
            ∙ at_same h.slot j (record (h.slot j) { assoc = (h.slot j).made })),
    )

fail-IsOwned : (h : Hub) (j : ℕ) (e : Error) → Pending h j → IsOwned h → IsOwned (fail j e h)
fail-IsOwned h j x q own i p =
    let s : Slot = record (h.slot j) { exc = some x } in
    let same = at_other h.slot j i s other in
    let before = other-Pending h j i s other p in
    let (found, empty) = own i before in
    (
      rw same (lookup-other (h.slot j).src (h.slot i).src i h.slots (apart found) ∙ found),
      rw same empty,
    )
  where
    other : j ≢ i
    other e = cc (
      p.2,
      ap (λ (y : Slot). y.exc)
          (ap (at h.slot j (record (h.slot j) { exc = some x })) (sym e)
            ∙ at_same h.slot j (record (h.slot j) { exc = some x })),
    )

    apart : lookup (h.slot i).src h.slots ≡ some i → (h.slot j).src ≢ (h.slot i).src
    apart f e = other (ground (arith, sym (own j q).0 ∙ ap (λ (s : Bytes). lookup s h.slots) e ∙ f))

finish-IsOwned : (h : Hub) (j : ℕ) → IsOwned h → IsOwned (finish j h)
finish-IsOwned h j own i p = elim (Bool-cases (j == i)) [
  | inr e ↦
      owned_at h j i (record (h.slot j) { ready = true }) own
        (λ s. absurd (cc (e, (==_iff j i).1 s))) p
  | inl e ↦
      let same : j ≡ i = (==_iff j i).0 e in
      let here : at h.slot j (record (h.slot j) { ready = true }) i
          ≡ record (h.slot i) { ready = true } =
        rw same (at_same h.slot i (record (h.slot i) { ready = true })) in
      let (found, empty) = own i (
        p.0,
        sym (ap (λ (x : Slot). x.made) here) ∙ p.1,
        sym (ap (λ (x : Slot). x.exc) here) ∙ p.2,
      ) in
      (rw here found, rw here empty)
]

forget-IsOwned : (h : Hub) (b : ℕ) → IsOwned h → IsOwned (forget b h)
forget-IsOwned h b own =
    if_both IsOwned (slot_holds b h (lookup (h.assoc b).src h.slots))
      (λ e. λ i p.
        let (found, empty) = own i p in
        (
          lookup-other (h.assoc b).src (h.slot i).src i h.slots (apart e i found empty) ∙ found,
          empty,
        ))
      (λ e. own)
  where
    apart :
        slot_holds b h (lookup (h.assoc b).src h.slots) ≡ true
        → (i : ℕ) → lookup (h.slot i).src h.slots ≡ some i
        → (h.slot i).assoc ≡ none
        → (h.assoc b).src ≢ (h.slot i).src
    apart e i found empty same =
        let here = ap (λ (s : Bytes). lookup s h.slots) same ∙ found in
        let e' : holds b (h.slot i).assoc ≡ true = sym (ap (slot_holds b h) here) ∙ e in
        let e'' : false ≡ true = sym (ap (holds b) empty) ∙ e' in cc e''

die-IsOwned : (h : Hub) (b : ℕ) → IsOwned h → IsOwned (die b h)
die-IsOwned h b own =
    forget-IsOwned (record h { assoc = at h.assoc b (record (h.assoc b) { closed = true }) }) b own

pub Step-IsOwned : (h k : Hub) → Step h k → IsOwned h → IsOwned k
Step-IsOwned h _ (begins s absent) own = begin-IsOwned h s absent own
Step-IsOwned h _ (makes j p) own = make-IsOwned h j own
Step-IsOwned h _ (assigns j a low made empty) own = assign-IsOwned h j a made own
Step-IsOwned h _ (fails j e p) own = fail-IsOwned h j e p own
Step-IsOwned h _ (finishes j low d) own = finish-IsOwned h j own
Step-IsOwned h _ (dies b low c) own = die-IsOwned h b own
