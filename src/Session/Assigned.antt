-- ===== src/Session/Assigned.antt =====
-- windows/receiver/TouchSession.cpp: the first loop of `Process` does not depend on the order in which
-- the entries of `slots_` stand.
use touchpad.Base.{
  ℕ, ◌≡◌, ◌∙◌, ap, sym, refl, false, ◌==◌, ltb, arith, List, [], ◌∷◌, length, set, Option, none,
  some, Bool-cases, inl, inr, bit_and, All,
}
use touchpad.Ioctl.{hid_max_contacts}
use touchpad.Wire.Types.{Contact}
use touchpad.Mtp1.Types.{Result, ok, err}
use touchpad.Session.Types.{SlotMap, k_tip}
use touchpad.Session.Slots.{
  Assignment, find_slot, allocate_slot, assign_new, assign_found, assign_contact, next_assign,
  assign_contacts,
}
use touchpad.Session.Assign.{GoodSlots, GoodAssignment, KnownContact, assign_contact-GoodResult}
use touchpad.Session.Leave.{mapped, find_slot-mapped}
use touchpad.Session.Same.{SameMap, length-SameMap, allocate_slot-SameMap, cons-SameMap}

-- Two assignments that differ in the order of the entries at most.
pub record SameAssignment (a b : Assignment) : Type 0 where
  pub present : a.present ≡ b.present
  pub slots : SameMap a.slots b.slots
  pub next : a.next_contacts ≡ b.next_contacts

abbrev pub SameResult : Result (Unit {0}) × Assignment → Result (Unit {0}) × Assignment → Type 0
SameResult r r' = (r.0 ≡ r'.0) × SameAssignment r.1 r'.1

assign_new-Same :
    (c : Contact) (r : Result ℕ) (a b : Assignment)
    → SameAssignment a b
    → SameResult (assign_new c r a) (assign_new c r b)
unfolding assign_new
assign_new-Same c (ok slot) a b same = (
  refl,
  record {
    present = same.present;
    slots = cons-SameMap c.identifier slot a.slots b.slots same.slots;
    next = ap (λ n. set n slot (some c)) same.next;
  },
)
assign_new-Same c (err e) a b same = (refl, same)

assign_found-Same :
    (c : Contact) (o : Option ℕ) (a b : Assignment)
    → GoodSlots a.slots
    → GoodSlots b.slots
    → SameAssignment a b
    → SameResult (assign_found c o a) (assign_found c o b)
unfolding assign_found
assign_found-Same c (some slot) a b g h same = (
  refl,
  record {
    present = same.present;
    slots = same.slots;
    next = ap (λ n. set n slot (some c)) same.next;
  },
)
assign_found-Same c none a b g h same =
    let size = length-SameMap a.slots b.slots g h same.slots in
    let given = allocate_slot-SameMap a.slots b.slots g h same.slots in
    rw (size, given)
      (elim (Bool-cases (ltb (length b.slots) hid_max_contacts)) [
        | inl room ↦ rw room (assign_new-Same c (allocate_slot b.slots) a b same)
        | inr full ↦ rw full (refl, same)
      ])

assign_contact-Same :
    (c : Contact) (a b : Assignment)
    → GoodSlots a.slots
    → GoodSlots b.slots
    → SameAssignment a b
    → SameResult (assign_contact c a) (assign_contact c b)
unfolding assign_contact
assign_contact-Same c a b g h same =
    rw (same.slots c.identifier) (elim (Bool-cases (bit_and c.flags k_tip == 0)) [
      | inl lifted ↦ rw lifted (refl, same)
      | inr touches ↦ rw touches (
          assign_found-Same c (find_slot c.identifier b.slots)
            (record a { present = c.identifier ∷ a.present })
            (record b { present = c.identifier ∷ b.present }) g h
            (record {
              present = ap (λ p. c.identifier ∷ p) same.present;
              slots = same.slots;
              next = same.next;
            }))
    ])

next_assign-Same :
    (r r' : Result (Unit {0}) × Assignment) (k : Assignment → Result (Unit {0}) × Assignment)
    → SameResult r r'
    → (SameAssignment r.1 r'.1 → SameResult (k r.1) (k r'.1))
    → SameResult (next_assign r k) (next_assign r' k)
unfolding next_assign
next_assign-Same (ok u, a) (ok v, b) k (e, same) h = h same
next_assign-Same (ok u, a) (err y, b) k (e, same) h = absurd (cc)
next_assign-Same (err x, a) (ok v, b) k (e, same) h = absurd (cc)
next_assign-Same (err x, a) (err y, b) k (e, same) h = (e, same)

-- The first loop.
pub assign_contacts-Same :
    (cs : List Contact) (a b : Assignment)
    → GoodAssignment a
    → GoodAssignment b
    → All KnownContact cs
    → SameAssignment a b
    → SameResult (assign_contacts cs a) (assign_contacts cs b)
unfolding assign_contacts
assign_contacts-Same [] a b g h k same = (refl, same)
assign_contacts-Same (c ∷ cs) a b g h k same =
    next_assign-Same (assign_contact c a) (assign_contact c b) (assign_contacts cs)
      (assign_contact-Same c a b g.slots h.slots same)
      (assign_contacts-Same cs _ _ (assign_contact-GoodResult c a g k.0).good
        (assign_contact-GoodResult c b h k.0).good k.1)

mapped-find_slot : (id : ℕ) (s : SlotMap) → find_slot id s ≡ none → mapped id s ≡ false
unfolding find_slot
mapped-find_slot id [] h = refl
mapped-find_slot id ((j, k) ∷ s) h = ground (arith, mapped-find_slot id s)

pub mapped-SameMap : (id : ℕ) (s t : SlotMap) → SameMap s t → mapped id s ≡ mapped id t
mapped-SameMap id s t same = elim (Bool-cases (mapped id s)) [
  | inl here ↦ elim (Bool-cases (mapped id t)) [
    | inl here' ↦ here ∙ sym here'
    | inr gone ↦ absurd (cc (mapped-find_slot id s (same id ∙ find_slot-mapped id t gone), here))
  ]
  | inr gone ↦ gone ∙ sym (mapped-find_slot id t (sym (same id) ∙ find_slot-mapped id s gone))
]
