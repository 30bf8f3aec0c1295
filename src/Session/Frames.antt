-- ===== src/Session/Frames.antt =====
-- windows/receiver/TouchSession.cpp: the later loops of `Process`, and `ReleaseAll`.
use touchpad.Base.{
  ℕ, ◌+◌, ◌%◌, ◌^◌, Bool, false, ltb, ◌==◌, ◌!=◌, if◌then◌else◌, List, [], ◌∷◌, Option, none, some,
  set, get_or, bit_and,
}
use touchpad.Wire.Types.{Contact}
use touchpad.Ioctl.{
  IoctlContact, IoctlFrame, zero_ioctl_frame, hid_max_contacts, ioctl_abi_version,
  ioctl_frame_reset,
}
use touchpad.Mtp1.Types.{Result, ok, err, ◌>>=◌, report_capacity}
use touchpad.Mtp1.Message.{contains}
use touchpad.Session.Logical.{to_logical, to_logical_y}
use touchpad.Session.Types.{TouchSession, SlotMap, SlotContacts, no_contacts, k_tip, not_tip}
use touchpad.Session.Slots.{find_slot}

-- `contact.flags &= ~kTip`
abbrev pub lift : Contact → Contact
lift c = record c { flags = bit_and c.flags not_tip }

-- `next_contacts[slot] = previous_contacts_[slot]` with the tip cleared, if there is one
unfoldable pub lift_slot : ℕ → Option Contact → SlotContacts → SlotContacts
lift_slot slot none next = next
lift_slot slot (some c) next = set next slot (some (lift c))

-- The second loop: the identifiers that are not present, and `next_contacts` with their lifts. The
-- map is walked in the order of the list.
unfoldable pub leave_slots :
    List ℕ → SlotContacts → SlotMap → List ℕ × SlotContacts → List ℕ × SlotContacts
unfolding lift_slot
leave_slots present previous [] r = r
leave_slots present previous ((id, slot) ∷ slots) r =
    leave_slots present previous slots (
      if contains id present then r else (id ∷ r.0, lift_slot slot (get_or previous slot none) r.1))

unfoldable pub report_contact : ℕ → Contact → IoctlContact
report_contact slot c = record {
  slot = slot;
  flags = c.flags;
  x = to_logical c.x;
  y = to_logical_y c.y;
  reserved = 0;
}

-- The body of the third loop for one slot.
unfoldable pub report_slot : ℕ → Option Contact → IoctlFrame → Result IoctlFrame
report_slot slot none out = ok out
report_slot slot (some c) out =
    if ltb out.report_contact_count hid_max_contacts
    then ok (record out {
      contacts = set out.contacts out.report_contact_count (report_contact slot c);
      report_contact_count = (out.report_contact_count + 1) % 2 ^ 8;
      active_contact_count =
          if bit_and c.flags k_tip != 0
          then (out.active_contact_count + 1) % 2 ^ 8
          else out.active_contact_count;
    })
    else err report_capacity

unfoldable pub report_slots : ℕ → SlotContacts → IoctlFrame → Result IoctlFrame
report_slots slot [] out = ok out
report_slots slot (c ∷ cs) out = do out' ← report_slot slot c out; report_slots (slot + 1) cs out'

-- `slots_.erase(found)`
unfoldable pub erase_id : ℕ → SlotMap → SlotMap
erase_id id [] = []
erase_id id ((j, slot) ∷ slots) = if j == id then slots else (j, slot) ∷ erase_id id slots

unfoldable pub erase_found : ℕ → Option ℕ → SlotMap × SlotContacts → SlotMap × SlotContacts
unfolding erase_id
erase_found id none r = r
erase_found id (some slot) (slots, previous) = (erase_id id slots, set previous slot none)

-- The fourth loop: what left is forgotten.
unfoldable pub erase_leaving : List ℕ → SlotMap × SlotContacts → SlotMap × SlotContacts
unfolding erase_found
erase_leaving [] r = r
erase_leaving (id ∷ leaving) r = erase_leaving leaving (erase_found id (find_slot id r.0) r)

-- `std::find_if(..., item.identifier == identifier)`
unfoldable pub find_contact : ℕ → List Contact → Option Contact
find_contact id [] = none
find_contact id (c ∷ cs) = if c.identifier == id then some c else find_contact id cs

unfoldable pub remember_found : ℕ → Option Contact → SlotContacts → SlotContacts
remember_found slot none previous = previous
remember_found slot (some c) previous = set previous slot (some c)

-- The last loop: what stays is remembered.
unfoldable pub remember_contacts : List Contact → SlotMap → SlotContacts → SlotContacts
unfolding remember_found
remember_contacts contacts [] previous = previous
remember_contacts contacts ((id, slot) ∷ slots) previous =
    remember_contacts contacts slots (remember_found slot (find_contact id contacts) previous)

-- The loop of `ReleaseAll`; it has no capacity test.
unfoldable pub release_slots : ℕ → SlotContacts → IoctlFrame → IoctlFrame
release_slots slot [] out = out
release_slots slot (none ∷ cs) out = release_slots (slot + 1) cs out
release_slots slot (some c ∷ cs) out = release_slots (slot + 1) cs (record out {
  contacts = set out.contacts out.report_contact_count (report_contact slot (lift c));
  report_contact_count = (out.report_contact_count + 1) % 2 ^ 8;
})

unfoldable pub release_all : ℕ → Bool → TouchSession → IoctlFrame × TouchSession
unfolding release_slots
release_all sequence reset s = (
  release_slots 0 s.previous_contacts (record zero_ioctl_frame {
    abi_version = ioctl_abi_version;
    sequence = sequence;
    flags = if reset then ioctl_frame_reset else 0;
  }),
  record s { slots = []; previous_contacts = no_contacts; button_down = false },
)
