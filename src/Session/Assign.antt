-- ===== src/Session/Assign.antt =====
-- windows/receiver/TouchSession.cpp: the loops of `Process` keep the slots and the contacts in order.
use touchpad.Base.{
  ℕ, ◌≤◌, ◌<◌, ◌≡◌, ◌∙◌, refl, inl, inr, false, ◌==◌, ltb, arith, List, [], ◌∷◌, length, length-set,
  set, get_or, All, All-set, All-get_or, Option, none, some, Bool-cases, bit_and,
}
use touchpad.Wire.Types.{Contact}
use touchpad.Ioctl.{hid_max_contacts}
use touchpad.Mtp1.Types.{Error, Result, ok, err, too_many_contacts}
use touchpad.Mtp1.Message.{contains}
use touchpad.Session.Types.{SlotMap, SlotContacts, k_tip}
use touchpad.Session.Slots.{
  Assignment, find_slot, slot_used, assign_new, assign_found, assign_contact, next_assign,
  assign_contacts,
}
use touchpad.Session.Frames.{
  lift, lift_slot, leave_slots, erase_id, erase_found, erase_leaving, find_contact, remember_found,
  remember_contacts,
}
use touchpad.Session.Reports.{KnownFlags, lift_flags}
use touchpad.Session.Allocate.{allocate_slot_lowest}

-- Slots below five, no identifier twice, no slot twice.
abbrev pub GoodSlots : SlotMap → Type 0
GoodSlots [] = Unit
GoodSlots ((id, slot) ∷ s) =
    (slot < hid_max_contacts) × (find_slot id s ≡ none) × (slot_used slot s ≡ false) × GoodSlots s

-- Five places, each empty or with a contact of known flags.
pub record GoodContacts (cs : SlotContacts) : Type 0 where
  pub size : length cs ≡ hid_max_contacts
  pub flags : All KnownFlags cs

pub record GoodAssignment (a : Assignment) : Type 0 where
  pub slots : GoodSlots a.slots
  pub size : length a.slots ≤ hid_max_contacts
  pub next : GoodContacts a.next_contacts

pub set-GoodContacts :
    (cs : SlotContacts) (slot : ℕ) (o : Option Contact)
    → GoodContacts cs
    → KnownFlags o
    → GoodContacts (set cs slot o)
set-GoodContacts cs slot o g k = record {
  size = length-set cs slot o ∙ g.size;
  flags = All-set KnownFlags cs slot o g.flags k;
}

abbrev pub KnownContact : Contact → Type 0
KnownContact c = c.flags < 8

-- A result of the first loop: a good assignment, and no other error than that of a sixth contact.
pub record GoodResult (r : Result (Unit {0}) × Assignment) : Type 0 where
  pub good : GoodAssignment r.1
  pub error : (e : Error) → r.0 ≡ err e → e ≡ too_many_contacts

assign_found-GoodResult :
    (c : Contact) (o : Option ℕ) (a : Assignment)
    → GoodAssignment a
    → KnownContact c
    → find_slot c.identifier a.slots ≡ o
    → GoodResult (assign_found c o a)
unfolding assign_found assign_new
assign_found-GoodResult c (some slot) a g k found = record {
  good = record {
    slots = g.slots;
    size = g.size;
    next = set-GoodContacts a.next_contacts slot (some c) g.next k;
  };
  error = λ e h. cc;
}
assign_found-GoodResult c none a g k found =
    elim (Bool-cases (ltb (length a.slots) hid_max_contacts)) [
      | inl room ↦
          let (slot, e, lt, lowest) = allocate_slot_lowest a.slots (ground (arith, room)) in
          rw (room, e)
            (record {
              good = record {
                slots = (lt, found, lowest.free, g.slots);
                size = ground (arith, room);
                next = set-GoodContacts a.next_contacts slot (some c) g.next k;
              };
              error = λ e h. cc;
            })
      | inr full ↦ rw full (record { good = g; error = λ e h. cc })
    ]

pub assign_contact-GoodResult :
    (c : Contact) (a : Assignment)
    → GoodAssignment a
    → KnownContact c
    → GoodResult (assign_contact c a)
unfolding assign_contact
assign_contact-GoodResult c a g k = elim (Bool-cases (bit_and c.flags k_tip == 0)) [
  | inl lifted ↦ rw lifted (record { good = g; error = λ e h. cc })
  | inr touches ↦ rw touches (
      assign_found-GoodResult c (find_slot c.identifier a.slots)
        (record a { present = c.identifier ∷ a.present })
        (record { slots = g.slots; size = g.size; next = g.next }) k refl)
]

next_assign-GoodResult :
    (r : Result (Unit {0}) × Assignment) (k : Assignment → Result (Unit {0}) × Assignment)
    → GoodResult r
    → ((a : Assignment) → GoodAssignment a → GoodResult (k a))
    → GoodResult (next_assign r k)
unfolding next_assign
next_assign-GoodResult (ok u, a) k g next = next a g.good
next_assign-GoodResult (err e, a) k g next = g

pub assign_contacts-GoodResult :
    (cs : List Contact) (a : Assignment)
    → GoodAssignment a
    → All KnownContact cs
    → GoodResult (assign_contacts cs a)
unfolding assign_contacts
assign_contacts-GoodResult [] a g k = record { good = g; error = λ e h. cc }
assign_contacts-GoodResult (c ∷ cs) a g k =
    next_assign-GoodResult (assign_contact c a) (assign_contacts cs)
      (assign_contact-GoodResult c a g k.0) (λ a' g'. assign_contacts-GoodResult cs a' g' k.1)

pub leave_slots-GoodContacts :
    (present : List ℕ) (previous : SlotContacts) (s : SlotMap) (r : List ℕ × SlotContacts)
    → GoodContacts previous
    → GoodContacts r.1
    → GoodContacts (leave_slots present previous s r).1
unfolding leave_slots lift_slot
leave_slots-GoodContacts present previous [] r p g = g
leave_slots-GoodContacts present previous ((id, slot) ∷ s) r p g =
    leave_slots-GoodContacts present previous s _ p (elim (Bool-cases (contains id present)) [
      | inl here ↦ rw here g
      | inr gone ↦
          rw gone (
            lifted (get_or previous slot none)
              (All-get_or KnownFlags previous slot none p.flags tt))
    ])
  where
    lifted : (o : Option Contact) → KnownFlags o → GoodContacts (lift_slot slot o r.1)
    lifted none k = g
    lifted (some c) k = set-GoodContacts r.1 slot (some (lift c)) g (lift_flags c.flags k)

pub find_slot-erase_id :
    (i id : ℕ) (s : SlotMap) → find_slot i s ≡ none → find_slot i (erase_id id s) ≡ none
unfolding find_slot erase_id
find_slot-erase_id i id [] h = h
find_slot-erase_id i id ((j, slot) ∷ s) h = ground (arith, find_slot-erase_id i id s)

pub slot_used-erase_id :
    (k id : ℕ) (s : SlotMap) → slot_used k s ≡ false → slot_used k (erase_id id s) ≡ false
unfolding slot_used erase_id
slot_used-erase_id k id [] h = h
slot_used-erase_id k id ((j, slot) ∷ s) h = ground (arith, slot_used-erase_id k id s)

pub erase_id-GoodSlots :
    (id : ℕ) (s : SlotMap)
    → GoodSlots s
    → GoodSlots (erase_id id s) × (length (erase_id id s) ≤ length s)
unfolding erase_id
erase_id-GoodSlots id [] g = (tt, omega arith)
erase_id-GoodSlots id ((j, slot) ∷ s) (lt, f, u, g) = elim (Bool-cases (j == id)) [
  | inl e ↦ rw e (g, omega arith)
  | inr e ↦
      let (g', le) = erase_id-GoodSlots id s g in
      rw e
        ((lt, find_slot-erase_id j id s f, slot_used-erase_id slot id s u, g'), omega (arith, le))
]

-- The map and the remembered contacts, both good.
abbrev pub GoodPair : SlotMap × SlotContacts → Type 0
GoodPair r = GoodSlots r.0 × (length r.0 ≤ hid_max_contacts) × GoodContacts r.1

pub erase_found-GoodPair :
    (id : ℕ) (o : Option ℕ) (r : SlotMap × SlotContacts)
    → GoodPair r
    → GoodPair (erase_found id o r)
unfolding erase_found
erase_found-GoodPair id none r g = g
erase_found-GoodPair id (some slot) (s, previous) (g, n, p) =
    let (g', le) = erase_id-GoodSlots id s g in
    (g', omega (arith, n, le), set-GoodContacts previous slot none p tt)

pub erase_leaving-GoodPair :
    (leaving : List ℕ) (r : SlotMap × SlotContacts)
    → GoodPair r
    → GoodPair (erase_leaving leaving r)
unfolding erase_leaving
erase_leaving-GoodPair [] r g = g
erase_leaving-GoodPair (id ∷ leaving) r g =
    erase_leaving-GoodPair leaving (erase_found id (find_slot id r.0) r)
      (erase_found-GoodPair id (find_slot id r.0) r g)

find_contact-Known :
    (id : ℕ) (cs : List Contact) → All KnownContact cs → KnownFlags (find_contact id cs)
unfolding find_contact
find_contact-Known id [] k = tt
find_contact-Known id (c ∷ cs) k = elim (Bool-cases (c.identifier == id)) [
  | inl e ↦ rw e k.0
  | inr e ↦ rw e (find_contact-Known id cs k.1)
]

pub remember_contacts-GoodContacts :
    (cs : List Contact) (s : SlotMap) (previous : SlotContacts)
    → All KnownContact cs
    → GoodContacts previous
    → GoodContacts (remember_contacts cs s previous)
unfolding remember_contacts remember_found
remember_contacts-GoodContacts cs [] previous k g = g
remember_contacts-GoodContacts cs ((id, slot) ∷ s) previous k g =
    remember_contacts-GoodContacts cs s _ k
      (remembered (find_contact id cs) (find_contact-Known id cs k))
  where
    remembered : (o : Option Contact) → KnownFlags o → GoodContacts (remember_found slot o previous)
    remembered none k' = g
    remembered (some c) k' = set-GoodContacts previous slot (some c) g k'
