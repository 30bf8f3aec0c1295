-- ===== src/Session/Reports.antt =====
-- windows/receiver/TouchSession.cpp: the reports that the session makes are ones that the driver
-- submits.
use touchpad.Base.{
  ℕ, ◌+◌, ◌%◌, ◌^◌, ◌≤◌, ◌<◌, ◌≡◌, ◌∙◌, refl, true, ltb, ◌!=◌, if◌then◌else◌, arith, [], ◌∷◌,
  Option, none, some, length, length-set, set, All, All-set, bit_and, and_not_two,
}
use touchpad.Wire.Types.{Contact}
use touchpad.Ioctl.{IoctlFrame, IsSubmittable, IsSubmittableContact, hid_max_contacts}
use touchpad.Mtp1.Types.{ok}
use touchpad.Session.Types.{SlotContacts, k_tip, not_tip}
use touchpad.Session.LogicalBounds.{to_logical-le}
use touchpad.Session.Frames.{lift, report_contact, report_slot, report_slots, release_slots}

-- A slot that is empty or holds a contact of known flags.
abbrev pub KnownFlags : Option Contact → Type 0
KnownFlags none = Unit
KnownFlags (some c) = c.flags < 8

report_contact-IsSubmittableContact :
    (slot : ℕ) (c : Contact)
    → slot < hid_max_contacts
    → c.flags < 8
    → IsSubmittableContact (report_contact slot c)
unfolding report_contact
report_contact-IsSubmittableContact slot c h k = record {
  slot = h;
  flags = k;
  x = (to_logical-le c.x).0;
  y = (to_logical-le c.y).1;
  reserved = refl;
}

-- Clearing the tip leaves known flags known.
pub lift_flags : (f : ℕ) → f < 8 → bit_and f not_tip < 8
lift_flags f h = omega (arith, and_not_two f)

-- One entry more, behind the entries so far.
abbrev entered : ℕ → Contact → IoctlFrame → IoctlFrame
entered slot c out = record out {
  contacts = set out.contacts out.report_contact_count (report_contact slot c);
  report_contact_count = (out.report_contact_count + 1) % 2 ^ 8;
}

-- A report in progress that has come to `slot`.
pub record InProgress (slot : ℕ) (out : IoctlFrame) : Type 0 where
  pub frame : IsSubmittable out
  pub reported : out.report_contact_count ≤ slot
  pub active : out.active_contact_count ≤ out.report_contact_count

entered-InProgress :
    (slot : ℕ) (c : Contact) (out : IoctlFrame) (active : ℕ)
    → InProgress slot out
    → slot < hid_max_contacts
    → c.flags < 8
    → active ≤ out.active_contact_count + 1
    → InProgress (slot + 1) (record (entered slot c out) { active_contact_count = active })
entered-InProgress slot c out active p h k a = record {
  frame = record {
    abi = p.frame.abi;
    flags = p.frame.flags;
    active = omega (arith, p.active, p.reported);
    reported = omega (arith, p.reported);
    storage =
        length-set out.contacts out.report_contact_count (report_contact slot c) ∙ p.frame.storage;
    contacts =
        All-set IsSubmittableContact out.contacts out.report_contact_count (report_contact slot c)
          p.frame.contacts (report_contact-IsSubmittableContact slot c h k);
  };
  reported = omega (arith, p.reported);
  active = omega (arith, p.active, p.reported);
}

later : (slot : ℕ) (out : IoctlFrame) → InProgress slot out → InProgress (slot + 1) out
later slot out p = record {
  frame = p.frame;
  reported = omega (arith, p.reported);
  active = p.active;
}

report_slot-InProgress :
    (slot : ℕ) (o : Option Contact) (out : IoctlFrame)
    → InProgress slot out
    → slot < hid_max_contacts
    → KnownFlags o
    → (out' : IoctlFrame) × (report_slot slot o out ≡ ok out') × InProgress (slot + 1) out'
unfolding report_slot
report_slot-InProgress slot none out p h k = (out, refl, later slot out p)
report_slot-InProgress slot (some c) out p h k = (
  record (entered slot c out) { active_contact_count = active },
  rw room,
  entered-InProgress slot c out active p h k (ground (arith, p.active, p.reported)),
)
  where
    room : ltb out.report_contact_count hid_max_contacts ≡ true
    room = ground (arith, p.reported)

    active : ℕ
    active =
        if bit_and c.flags k_tip != 0
        then (out.active_contact_count + 1) % 2 ^ 8
        else out.active_contact_count

-- The third loop of `Process` never meets its capacity test, and makes a report to submit.
pub report_slots-IsSubmittable :
    (slot : ℕ) (cs : SlotContacts) (out : IoctlFrame)
    → InProgress slot out
    → slot + length cs ≤ hid_max_contacts
    → All KnownFlags cs
    → (out' : IoctlFrame) × (report_slots slot cs out ≡ ok out') × IsSubmittable out'
unfolding report_slots
report_slots-IsSubmittable slot [] out p h k = (out, refl, p.frame)
report_slots-IsSubmittable slot (o ∷ cs) out p h k =
    let (out₁, e, p₁) = report_slot-InProgress slot o out p (omega arith) k.0 in
    rw e (report_slots-IsSubmittable (slot + 1) cs out₁ p₁ (omega arith) k.1)

-- The loop of `ReleaseAll` makes one too, with nobody touching.
pub release_slots-IsSubmittable :
    (slot : ℕ) (cs : SlotContacts) (out : IoctlFrame)
    → InProgress slot out
    → slot + length cs ≤ hid_max_contacts
    → All KnownFlags cs
    → IsSubmittable (release_slots slot cs out)
      × ((release_slots slot cs out).active_contact_count ≡ out.active_contact_count)
      × ((release_slots slot cs out).flags ≡ out.flags)
unfolding release_slots
release_slots-IsSubmittable slot [] out p h k = (p.frame, refl, refl)
release_slots-IsSubmittable slot (none ∷ cs) out p h k =
    release_slots-IsSubmittable (slot + 1) cs out (later slot out p) (omega arith) k.1
release_slots-IsSubmittable slot (some c ∷ cs) out p h k =
    release_slots-IsSubmittable (slot + 1) cs (entered slot (lift c) out)
      (entered-InProgress slot (lift c) out out.active_contact_count p (omega arith)
        (lift_flags c.flags k.0) (omega arith))
      (omega arith) k.1
