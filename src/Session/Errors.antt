-- ===== src/Session/Errors.antt =====
-- windows/receiver/TouchSession.cpp: the errors that a FRAME can end with, past the tests on its order.
use touchpad.Base.{
  ℕ, zero, suc, ◌+◌, ◌≡◌, ◌∙◌, sym, refl, ◌⊎◌, inl, inr, Bool, true, false, ◌==◌, ltb,
  if◌then◌else◌, Option, none, some, List, [], ◌∷◌, length, Bool-cases, bit_and,
}
use touchpad.Wire.Types.{Contact}
use touchpad.Ioctl.{IoctlFrame, hid_max_contacts}
use touchpad.Mtp1.Types.{
  Message, Error, Result, ok, err, report_capacity, no_free_slot, too_many_contacts,
}
use touchpad.Session.Types.{TouchSession, SlotContacts, SlotMap, no_contacts, k_tip}
use touchpad.Session.Slots.{
  Assignment, slot_used, find_slot, allocate_from, allocate_slot, assign_new, assign_found,
  assign_contact, next_assign, assign_contacts,
}
use touchpad.Session.Frames.{report_slot, report_slots, leave_slots}
use touchpad.Session.Process.{finish_frame, after_assign, process_frame, frame_header, button_of}
use touchpad.Session.Invariant.{GoodAnswer}

-- The errors that a frame can end with.
abbrev pub IsCapacity : Error → Type 0
IsCapacity x = (x ≡ too_many_contacts) ⊎ ((x ≡ report_capacity) ⊎ (x ≡ no_free_slot))

abbrev pub FailsBy {ℓ} : {A : Type ℓ} → (Error → Type 0) → Result A → Type 0
FailsBy P (ok a) = Unit
FailsBy P (err x) = P x

if-FailsBy :
    (b : Bool) (x y : Result ℕ)
    → FailsBy IsCapacity x
    → FailsBy IsCapacity y
    → FailsBy IsCapacity (if b then x else y)
if-FailsBy true x y h k = h
if-FailsBy false x y h k = k

allocate_from-FailsBy :
    (n candidate : ℕ) (slots : SlotMap) → FailsBy IsCapacity (allocate_from n candidate slots)
unfolding allocate_from
allocate_from-FailsBy zero candidate slots = inr (inr refl)
allocate_from-FailsBy (suc n) candidate slots =
    if-FailsBy (slot_used candidate slots) (allocate_from n (candidate + 1) slots) (ok candidate)
      (allocate_from-FailsBy n (candidate + 1) slots) tt

assign_new-FailsBy :
    (c : Contact) (r : Result ℕ) (a : Assignment)
    → FailsBy IsCapacity r
    → FailsBy IsCapacity (assign_new c r a).0
unfolding assign_new
assign_new-FailsBy c (ok slot) a h = tt
assign_new-FailsBy c (err x) a h = h

assign_found-FailsBy :
    (c : Contact) (o : Option ℕ) (a : Assignment) → FailsBy IsCapacity (assign_found c o a).0
unfolding assign_found
assign_found-FailsBy c (some slot) a = tt
assign_found-FailsBy c none a = elim (Bool-cases (ltb (length a.slots) hid_max_contacts)) [
  | inl room ↦ rw room (
      assign_new-FailsBy c (allocate_slot a.slots) a
        (unfold allocate_slot in allocate_from-FailsBy hid_max_contacts 0 a.slots))
  | inr full ↦ rw full (inl refl)
]

assign_contact-FailsBy : (c : Contact) (a : Assignment) → FailsBy IsCapacity (assign_contact c a).0
unfolding assign_contact
assign_contact-FailsBy c a = elim (Bool-cases (bit_and c.flags k_tip == 0)) [
  | inl lifted ↦ rw lifted tt
  | inr touches ↦ rw touches (
      assign_found-FailsBy c (find_slot c.identifier a.slots)
        (record a { present = c.identifier ∷ a.present }))
]

next_assign-FailsBy :
    (r : Result (Unit {0}) × Assignment) (k : Assignment → Result (Unit {0}) × Assignment)
    → FailsBy IsCapacity r.0
    → ((a : Assignment) → FailsBy IsCapacity (k a).0)
    → FailsBy IsCapacity (next_assign r k).0
unfolding next_assign
next_assign-FailsBy (ok u, a) k h f = f a
next_assign-FailsBy (err x, a) k h f = h

assign_contacts-FailsBy :
    (cs : List Contact) (a : Assignment) → FailsBy IsCapacity (assign_contacts cs a).0
unfolding assign_contacts
assign_contacts-FailsBy [] a = tt
assign_contacts-FailsBy (c ∷ cs) a =
    next_assign-FailsBy (assign_contact c a) (assign_contacts cs) (assign_contact-FailsBy c a)
      (assign_contacts-FailsBy cs)

report_slots-FailsBy :
    (slot : ℕ) (cs : SlotContacts) (out : IoctlFrame)
    → FailsBy IsCapacity (report_slots slot cs out)
unfolding report_slots report_slot
report_slots-FailsBy slot [] out = tt
report_slots-FailsBy slot (none ∷ cs) out = report_slots-FailsBy (slot + 1) cs out
report_slots-FailsBy slot (some c ∷ cs) out =
    elim (Bool-cases (ltb out.report_contact_count hid_max_contacts)) [
      | inl room ↦ rw room (report_slots-FailsBy (slot + 1) cs _)
      | inr full ↦ rw full (inr (inl refl))
    ]

finish_frame-FailsBy :
    (now : ℕ) (m : Message) (leaving : List ℕ) (a : Assignment) (out : Result IoctlFrame)
    (s : TouchSession)
    → FailsBy IsCapacity out
    → FailsBy IsCapacity (finish_frame now m leaving a out s).0
unfolding finish_frame
finish_frame-FailsBy now m leaving a (ok out) s h = tt
finish_frame-FailsBy now m leaving a (err x) s h = h

after_assign-FailsBy :
    (now : ℕ) (m : Message) (r : Result (Unit {0}) × Assignment) (s : TouchSession)
    → FailsBy IsCapacity r.0
    → FailsBy IsCapacity (after_assign now m r s).0
unfolding after_assign
after_assign-FailsBy now m (err x, a) s h = h
after_assign-FailsBy now m (ok u, a) s h =
    let next = leave_slots a.present s.previous_contacts a.slots ([], a.next_contacts) in
    finish_frame-FailsBy now m next.0 a (report_slots 0 next.1 (frame_header m)) s
      (report_slots-FailsBy 0 next.1 (frame_header m))

pub process_frame-FailsBy :
    (now : ℕ) (m : Message) (s : TouchSession) → FailsBy IsCapacity (process_frame now m s).0
unfolding process_frame
process_frame-FailsBy now m s =
    after_assign-FailsBy now m _ (record s { button_down = button_of m })
      (assign_contacts-FailsBy m.contacts
        (record { present = []; slots = s.slots; next_contacts = no_contacts }))

-- Of these only one comes out of a session in which the invariant holds.
pub capacity_error :
    (r : Result (Option IoctlFrame)) (x : Error)
    → r ≡ err x
    → FailsBy IsCapacity r
    → GoodAnswer r
    → x ≡ too_many_contacts
capacity_error (ok o) x e f g = absurd (cc)
capacity_error (err y) x e (inl same) g = let h : y ≡ x = cc in sym h ∙ same
capacity_error (err y) x e (inr (inl same)) g = absurd (g.0 same)
capacity_error (err y) x e (inr (inr same)) g = absurd (g.1 same)
