-- ===== src/Session/Slots.antt =====
-- windows/receiver/TouchSession.cpp: `AllocateSlot`, and the first loop of `Process`, which gives
-- every touching contact its slot.
use touchpad.Base.{
  ℕ, zero, suc, ◌+◌, Bool, false, ◌||◌, ltb, ◌==◌, if◌then◌else◌, List, [], ◌∷◌, Option, none, some,
  length, set, bit_and,
}
use touchpad.Wire.Types.{Contact}
use touchpad.Ioctl.{hid_max_contacts}
use touchpad.Mtp1.Types.{Result, ok, err, too_many_contacts, no_free_slot}
use touchpad.Session.Types.{SlotMap, SlotContacts, k_tip}

-- `slots_.find(identifier)`
unfoldable pub find_slot : ℕ → SlotMap → Option ℕ
find_slot id [] = none
find_slot id ((j, slot) ∷ slots) = if j == id then some slot else find_slot id slots

-- `std::any_of(..., item.second == candidate)`
unfoldable pub slot_used : ℕ → SlotMap → Bool
slot_used candidate [] = false
slot_used candidate ((j, slot) ∷ slots) = slot == candidate || slot_used candidate slots

-- `n` candidates are left to try.
unfoldable pub allocate_from : ℕ → ℕ → SlotMap → Result ℕ
allocate_from zero candidate slots = err no_free_slot
allocate_from (suc n) candidate slots =
    if slot_used candidate slots then allocate_from n (candidate + 1) slots else ok candidate

unfoldable pub allocate_slot : SlotMap → Result ℕ
allocate_slot slots = allocate_from hid_max_contacts 0 slots

-- What the loop changes: `present`, `slots_` and `next_contacts`.
pub record Assignment : Type 0 where
  pub present : List ℕ
  pub slots : SlotMap
  pub next_contacts : SlotContacts

unfoldable pub assign_new : Contact → Result ℕ → Assignment → Result (Unit {0}) × Assignment
assign_new c (ok slot) a = (
  ok tt,
  record a {
    slots = (c.identifier, slot) ∷ a.slots;
    next_contacts = set a.next_contacts slot (some c);
  },
)
assign_new c (err e) a = (err e, a)

-- The rest of the body, with the result of `find`.
unfoldable pub assign_found : Contact → Option ℕ → Assignment → Result (Unit {0}) × Assignment
unfolding assign_new
assign_found c (some slot) a =
    (ok tt, record a { next_contacts = set a.next_contacts slot (some c) })
assign_found c none a =
    if ltb (length a.slots) hid_max_contacts
    then assign_new c (allocate_slot a.slots) a
    else (err too_many_contacts, a)

-- The body of the loop; `continue` for a contact that does not touch.
unfoldable pub assign_contact : Contact → Assignment → Result (Unit {0}) × Assignment
unfolding assign_found
assign_contact c a =
    if bit_and c.flags k_tip == 0
    then (ok tt, a)
    else assign_found c (find_slot c.identifier a.slots)
        (record a { present = c.identifier ∷ a.present })

unfoldable pub next_assign :
    Result (Unit {0}) × Assignment
    → (Assignment → Result (Unit {0}) × Assignment)
    → Result (Unit {0}) × Assignment
next_assign (ok u, a) k = k a
next_assign (err e, a) k = (err e, a)

unfoldable pub assign_contacts : List Contact → Assignment → Result (Unit {0}) × Assignment
unfolding next_assign
assign_contacts [] a = (ok tt, a)
assign_contacts (c ∷ cs) a = next_assign (assign_contact c a) (assign_contacts cs)
