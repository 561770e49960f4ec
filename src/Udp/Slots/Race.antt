-- ===== src/Udp/Slots/Race.antt =====
-- About association and forget of socks5.go, when an association ends before it is assigned.
use wirez.Udp.Slots.Owned.{new_hub-IsOwned, Step-IsOwned}
use mathlib.Core.Path.{subst}
use wirez.Prelude.{
  ℕ, ◌≡◌, inl, refl, ap, ◌∙◌, true, false, none, some, arith, Bytes, lookup, insert, lookup-insert,
  equal_refl, ◌==◌, ==_iff,
}
use wirez.Udp.Slots.{
  Hub, at, new_hub, begin, make, assign, finish, holds, slot_holds, die, Step, begins, makes,
  assigns, finishes, dies, Steps, stop, more,
}
use wirez.Udp.Slots.Stale.{IsStale, IsOwned, Step-IsStale}

owned-Steps-IsStale :
    (h k : Hub) (src : Bytes) (i a : ℕ)
    → IsOwned h
    → Steps h k
    → IsStale h src i a
    → IsStale k src i a
owned-Steps-IsStale h _ src i a own stop v = v
owned-Steps-IsStale h k src i a own (more {k = l} s rest) v =
    owned-Steps-IsStale l k src i a (Step-IsOwned h l s own) rest (Step-IsStale h l src i a own s v)

Steps-IsOwned : (h k : Hub) → Steps h k → IsOwned h → IsOwned k
Steps-IsOwned h _ stop own = own
Steps-IsOwned h k (more {k = l} s rest) own = Steps-IsOwned l k rest (Step-IsOwned h l s own)

-- Once the slot of a source is ready and holds a closed association, in a state that a new connector
-- reaches, it is found, ready and holds that closed association after any further steps.
pub Steps-IsStale :
    (h k : Hub) (src : Bytes) (i a : ℕ)
    → Steps new_hub h
    → Steps h k
    → IsStale h src i a
    → IsStale k src i a
Steps-IsStale h k src i a reached rest v =
    owned-Steps-IsStale h k src i a (Steps-IsOwned new_hub h reached new_hub-IsOwned) rest v

module _ (h : Hub) (src : Bytes) where
  abbrev pub made : Hub
  made = make h.next_slot (begin src h)

  -- The association has ended, and its slot was not found to hold it.
  abbrev pub ended : Hub
  ended = record made {
    assoc = at made.assoc h.next_assoc (record (made.assoc h.next_assoc) { closed = true });
  }

  -- Where the five steps lead.
  abbrev pub left : Hub
  left = finish h.next_slot (assign h.next_slot ended)

  slot_here : (h.next_slot == h.next_slot) ≡ true
  slot_here = (==_iff h.next_slot h.next_slot).1 refl

  assoc_here : (h.next_assoc == h.next_assoc) ≡ true
  assoc_here = (==_iff h.next_assoc h.next_assoc).1 refl

  source_found : lookup src (insert src h.next_slot h.slots) ≡ some h.next_slot
  source_found = lookup-insert src src h.next_slot h.slots ∙ rw (equal_refl src) refl

  not_held :
      slot_holds h.next_assoc ended (lookup (ended.assoc h.next_assoc).src ended.slots) ≡ false
  not_held =
      let source : (ended.assoc h.next_assoc).src ≡ src = rw (assoc_here, slot_here) refl in
      let empty : (ended.slot h.next_slot).assoc ≡ none = rw slot_here refl in
      ap (λ (s : Bytes). slot_holds h.next_assoc ended (lookup s ended.slots)) source
      ∙ ap (slot_holds h.next_assoc ended) source_found
      ∙ ap (holds h.next_assoc) empty

  ends : die h.next_assoc made ≡ ended
  ends = rw not_held refl

  -- From any state, for a source with no slot, five steps lead to a state in which the slot of that
  -- source is ready and holds a closed association: it ended after newUDPAssociation started it and
  -- before it was assigned to the slot.
  pub race : lookup src h.slots ≡ none → Steps h left × IsStale left src h.next_slot h.next_assoc
  race absent = (
    more (begins src absent) (
        more (makes h.next_slot (omega arith, rw slot_here refl, rw slot_here refl)) (
          more (subst (Step made) ends (dies h.next_assoc (omega arith) (rw assoc_here refl))) (
            more
              (assigns h.next_slot h.next_assoc (omega arith) (rw slot_here refl)
                (rw slot_here refl))
              (more (finishes h.next_slot (omega arith) (inl (h.next_assoc, rw slot_here refl)))
                stop)))),
    record {
      found = source_found;
      old_slot = omega arith;
      old_assoc = omega arith;
      ready = rw slot_here refl;
      assigned = rw slot_here refl;
      built = rw slot_here refl;
      closed = rw assoc_here refl;
    },
  )
