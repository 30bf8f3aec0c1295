-- ===== src/Session/Put.antt =====
-- windows/receiver/TouchSession.cpp: the loops of `Process` that put a contact into the slot of each
-- entry do not depend on the order in which the entries of `slots_` stand.
use touchpad.Base.{
  ℕ, ◌<◌, ◌≡◌, ◌≢◌, ◌∙◌, ap, sym, refl, Bool, true, false, if◌then◌else◌, List, [], ◌∷◌, length,
  length-set, get_or, get_or-set_self, get_or-set_ne, Option, none, some,
}
use touchpad.Ioctl.{hid_max_contacts}
use touchpad.Wire.Types.{Contact}
use touchpad.Mtp1.Message.{contains}
use touchpad.Session.Types.{SlotMap, SlotContacts}
use touchpad.Session.Frames.{
  lift, lift_slot, leave_slots, find_contact, remember_found, remember_contacts,
}
use touchpad.Session.Assign.{GoodSlots}
use touchpad.Session.Same.{SameMap}
use touchpad.Session.Walk.{IsLocal, walk, walk-SameMap}

-- What is in a slot after a contact, or none, was put there.
over : Option Contact → Option Contact → Option Contact
over none o = o
over (some c) o = some c

remember_found-size :
    (slot : ℕ) (o : Option Contact) (next : SlotContacts)
    → length (remember_found slot o next) ≡ length next
unfolding remember_found
remember_found-size slot none next = refl
remember_found-size slot (some c) next = length-set next slot (some c)

remember_found-here :
    (slot : ℕ) (o : Option Contact) (next : SlotContacts)
    → slot < length next
    → get_or (remember_found slot o next) slot none ≡ over o (get_or next slot none)
unfolding remember_found over
remember_found-here slot none next h = refl
remember_found-here slot (some c) next h = get_or-set_self next slot (some c) none h

remember_found-elsewhere :
    (slot k : ℕ) (o : Option Contact) (next : SlotContacts)
    → slot ≢ k
    → get_or (remember_found slot o next) k none ≡ get_or next k none
unfolding remember_found
remember_found-elsewhere slot k none next h = refl
remember_found-elsewhere slot k (some c) next h = get_or-set_ne next slot k (some c) none h

-- A loop that puts a contact, or none, into the slot of each entry.
put_step : (ℕ → ℕ → Option Contact) → ℕ → ℕ → SlotContacts → SlotContacts
put_step content id slot next = remember_found slot (content id slot) next

put_step-IsLocal :
    (content : ℕ → ℕ → Option Contact)
    → IsLocal (put_step content) (λ id slot. over (content id slot))
unfolding put_step
put_step-IsLocal content = record {
  size = λ id slot next. remember_found-size slot (content id slot) next;
  here = λ id slot next h. remember_found-here slot (content id slot) next h;
  elsewhere = λ id slot k next h. remember_found-elsewhere slot k (content id slot) next h;
}

remember_contacts-walk :
    (cs : List Contact) (s : SlotMap) (next : SlotContacts)
    → remember_contacts cs s next
      ≡ walk (put_step (λ id slot. find_contact id cs)) _ (put_step-IsLocal _) s next
unfolding remember_contacts put_step
remember_contacts-walk cs [] next = refl
remember_contacts-walk cs ((id, slot) ∷ s) next = remember_contacts-walk cs s _

pub remember_contacts-SameMap :
    (cs : List Contact) (s t : SlotMap) (next : SlotContacts)
    → GoodSlots s
    → GoodSlots t
    → SameMap s t
    → length next ≡ hid_max_contacts
    → remember_contacts cs s next ≡ remember_contacts cs t next
remember_contacts-SameMap cs s t next g h same size =
    remember_contacts-walk cs s next
    ∙ walk-SameMap _ _ (put_step-IsLocal (λ id slot. find_contact id cs)) s t next g h same size
    ∙ sym (remember_contacts-walk cs t next)

-- The contact that the second loop puts into the slot of an identifier.
lifted : Option Contact → Option Contact
lifted none = none
lifted (some c) = some (lift c)

left_contact : List ℕ → SlotContacts → ℕ → ℕ → Option Contact
left_contact present previous id slot =
    if contains id present then none else lifted (get_or previous slot none)

lift_slot-put :
    (slot : ℕ) (o : Option Contact) (next : SlotContacts)
    → lift_slot slot o next ≡ remember_found slot (lifted o) next
unfolding lift_slot remember_found lifted
lift_slot-put slot none next = refl
lift_slot-put slot (some c) next = refl

left_one :
    (b : Bool) (id slot : ℕ) (o : Option Contact) (r : List ℕ × SlotContacts)
    → (if b then r else (id ∷ r.0, lift_slot slot o r.1)).1
      ≡ remember_found slot (if b then none else lifted o) r.1
left_one true id slot o r = unfold remember_found in refl
left_one false id slot o r = lift_slot-put slot o r.1

leave_slots-walk :
    (present : List ℕ) (previous : SlotContacts) (s : SlotMap) (r : List ℕ × SlotContacts)
    → (leave_slots present previous s r).1
      ≡ walk (put_step (left_contact present previous)) _ (put_step-IsLocal _) s r.1
unfolding leave_slots put_step left_contact
leave_slots-walk present previous [] r = refl
leave_slots-walk present previous ((id, slot) ∷ s) r =
    leave_slots-walk present previous s _
    ∙ ap (walk (put_step (left_contact present previous)) _ (put_step-IsLocal _) s)
        (left_one (contains id present) id slot (get_or previous slot none) r)

pub leave_slots-SameMap :
    (present : List ℕ) (previous : SlotContacts) (s t : SlotMap) (r : List ℕ × SlotContacts)
    → GoodSlots s
    → GoodSlots t
    → SameMap s t
    → length r.1 ≡ hid_max_contacts
    → (leave_slots present previous s r).1 ≡ (leave_slots present previous t r).1
leave_slots-SameMap present previous s t r g h same size =
    leave_slots-walk present previous s r
    ∙ walk-SameMap _ _ (put_step-IsLocal (left_contact present previous)) s t r.1 g h same size
    ∙ sym (leave_slots-walk present previous t r)
