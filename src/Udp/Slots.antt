-- ===== src/Udp/Slots.antt =====
-- socks5UDPConnector of socks5.go: the slots of the associations that flows of one source share.
-- Slots and associations are numbers, as the flows of an association are. Each operation is what
-- one goroutine does in one go; the steps interleave them.
pub mod Stale
pub mod Owned
pub mod Race
use wirez.Prelude.{
  ℕ, suc, ◌<◌, ◌≡◌, ◌⊎◌, Bool, true, false, Option, none, some, List, [], Bytes, lookup, insert,
  remove, ◌==◌, if◌then◌else◌,
}
use wirez.Throw.{Error}

-- associationSlot, with the source that it was made for. `made` is the association that
-- newUDPAssociation returned and that is not in the field `assoc` yet.
pub record Slot : Type 0 where
  pub src : Bytes
  pub ready : Bool
  pub assoc : Option ℕ
  pub exc : Option Error
  pub made : Option ℕ

-- What the connector sees of an association.
pub record Shared : Type 0 where
  pub src : Bytes
  pub closed : Bool

-- The field `slots`, and the objects that it and the goroutines point to.
pub record Hub : Type 0 where
  pub slots : List (Bytes × ℕ)
  pub slot : ℕ → Slot
  pub next_slot : ℕ
  pub assoc : ℕ → Shared
  pub next_assoc : ℕ

abbrev pub at {ℓ} : {A : Type ℓ} → (ℕ → A) → ℕ → A → ℕ → A
at s i x j = if i == j then x else s j

abbrev pub new_slot : Bytes → Slot
new_slot src = record { src = src; ready = false; assoc = none; exc = none; made = none }

-- NewSOCKS5UDPConnector.
abbrev pub new_hub : Hub
new_hub = record {
  slots = [];
  slot = λ _. new_slot [];
  next_slot = 0;
  assoc = λ _. record { src = []; closed = true };
  next_assoc = 0;
}

-- association, for a source that has no slot.
abbrev pub begin : Bytes → Hub → Hub
begin src h = record h {
  slots = insert src h.next_slot h.slots;
  slot = at h.slot h.next_slot (new_slot src);
  next_slot = suc h.next_slot;
}

-- The call of newUDPAssociation, which starts readLoop.
abbrev pub make : ℕ → Hub → Hub
make i h = record h {
  slot = at h.slot i (record (h.slot i) { made = some h.next_assoc });
  assoc = at h.assoc h.next_assoc (record { src = (h.slot i).src; closed = false });
  next_assoc = suc h.next_assoc;
}

-- `slot.assoc = `
abbrev pub assign : ℕ → Hub → Hub
assign i h = record h { slot = at h.slot i (record (h.slot i) { assoc = (h.slot i).made }) }

-- The handler of Catch.
abbrev pub fail : ℕ → Error → Hub → Hub
fail i e h = record h {
  slots = remove (h.slot i).src h.slots;
  slot = at h.slot i (record (h.slot i) { exc = some e });
}

-- `close(slot.ready)`
abbrev pub finish : ℕ → Hub → Hub
finish i h = record h { slot = at h.slot i (record (h.slot i) { ready = true }) }

abbrev pub holds : ℕ → Option ℕ → Bool
holds a none = false
holds a (some b) = a == b

-- `slot != nil && slot.assoc == a`
abbrev pub slot_holds : ℕ → Hub → Option ℕ → Bool
slot_holds a h none = false
slot_holds a h (some i) = holds a (h.slot i).assoc

-- forget.
abbrev pub forget : ℕ → Hub → Hub
forget a h =
    if slot_holds a h (lookup (h.assoc a).src h.slots)
    then record h { slots = remove (h.assoc a).src h.slots }
    else h

-- An association that ends, by shutdown or by its last flow, is closed and forgotten.
abbrev pub die : ℕ → Hub → Hub
die a h = forget a (record h { assoc = at h.assoc a (record (h.assoc a) { closed = true }) })

-- A slot whose goroutine is still in associate.
abbrev pub Pending : Hub → ℕ → Type 0
Pending h i = (i < h.next_slot) × ((h.slot i).made ≡ none) × ((h.slot i).exc ≡ none)

-- A goroutine closes `ready` when the slot holds an association or the exception.
abbrev pub Done : Hub → ℕ → Type 0
Done h i = ((a : ℕ) × ((h.slot i).assoc ≡ some a)) ⊎ ((e : Error) × ((h.slot i).exc ≡ some e))

pub data Step (h : Hub) : Hub → Type 0 where
  begins : (src : Bytes) → lookup src h.slots ≡ none → Step h (begin src h)
  makes : (i : ℕ) → Pending h i → Step h (make i h)
  assigns :
      (i a : ℕ)
      → i < h.next_slot
      → (h.slot i).made ≡ some a
      → (h.slot i).assoc ≡ none
      → Step h (assign i h)
  fails : (i : ℕ) (e : Error) → Pending h i → Step h (fail i e h)
  finishes : (i : ℕ) → i < h.next_slot → Done h i → Step h (finish i h)
  dies : (a : ℕ) → a < h.next_assoc → (h.assoc a).closed ≡ false → Step h (die a h)

pub data Steps : Hub → Hub → Type 0 where
  stop : {h : Hub} → Steps h h
  more : {h k l : Hub} → Step h k → Steps k l → Steps h l
