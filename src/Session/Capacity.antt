-- ===== src/Session/Capacity.antt =====
-- windows/receiver/TouchSession.cpp: frames for whose contacts `Process` has enough slots.
use touchpad.Base.{
  ℕ, ◌+◌, ◌≤◌, ◌<◌, ◌%◌, ◌^◌, ◌≡◌, ◌∙◌, ap, refl, inl, inr, Bool, true, false, not, ◌&&◌, ◌!=◌,
  ◌==◌, if◌then◌else◌, arith, List, [], ◌∷◌, length, Option, none, some, Bool-cases, subst, ltb,
  bit_and, set,
}
use touchpad.Wire.Types.{Contact}
use touchpad.Ioctl.{IoctlFrame, IsSubmittable, hid_max_contacts}
use touchpad.Mtp1.Types.{Message, frame, ok}
use touchpad.Mtp1.Valid.{ValidMessage}
use touchpad.Session.Types.{TouchSession, no_contacts, k_tip}
use touchpad.Session.Slots.{
  Assignment, find_slot, assign_new, assign_found, assign_contact, next_assign, assign_contacts,
}
use touchpad.Session.Frames.{leave_slots}
use touchpad.Session.Process.{
  Outcome, finish_frame, after_assign, process_frame, process_in_sequence, process, frame_header,
  button_of,
}
use touchpad.Session.Reports.{report_slots-IsSubmittable}
use touchpad.Session.Allocate.{allocate_slot_lowest}
use touchpad.Session.Assign.{GoodAssignment, assign_contacts-GoodResult, leave_slots-GoodContacts}
use touchpad.Session.Invariant.{
  IsSession, GoodAnswer, process-GoodOutcome, known_contacts, start_assignment-Good,
  start-InProgress,
}
use touchpad.Session.Stable.{touching}

-- The session has seen a HELLO and a RESET, and the frame `m` is next.
pub record IsNextFrame (m : Message) (s : TouchSession) : Type 0 where
  pub hello_seen : s.hello_seen ≡ true
  pub reset_seen : s.reset_seen ≡ true
  pub sequence_seen : s.sequence_seen ≡ true
  pub sequence : m.sequence ≡ (s.previous_sequence + 1) % 2 ^ 32
  pub type : m.type ≡ frame

passes : (b : Bool) (x : Outcome) {y : Outcome} → b ≡ false → (if b then x else y) ≡ y
passes true x h = absurd (cc)
passes false x h = refl

pub process-next :
    (now : ℕ) (m : Message) (s : TouchSession)
    → IsNextFrame m s
    → process now m s
      ≡ process_frame now m (record s { sequence_seen = true; previous_sequence = m.sequence })
unfolding process process_in_sequence
process-next now m s n =
    let s' : TouchSession = record s { sequence_seen = true; previous_sequence = m.sequence } in
    passes (s.sequence_seen && m.sequence != (s.previous_sequence + 1) % 2 ^ 32) _
      (ground (arith, n.sequence))
    ∙ ap (process_in_sequence now m s') n.type
    ∙ passes (not s.hello_seen) _ (ground (arith, n.hello_seen))
    ∙ passes (not s.reset_seen) _ (ground (arith, n.reset_seen))

assign_found-room :
    (c : Contact) (o : Option ℕ) (a : Assignment)
    → length a.slots < hid_max_contacts
    → (d : Assignment) × (assign_found c o a ≡ (ok tt, d)) × (length d.slots ≤ length a.slots + 1)
unfolding assign_found assign_new
assign_found-room c (some k) a h = (_, refl, omega arith)
assign_found-room c none a h =
    let (k, given, lt, lowest) = allocate_slot_lowest a.slots h in
    let room : ltb (length a.slots) hid_max_contacts ≡ true = ground arith in
    (
      record a {
        slots = (c.identifier, k) ∷ a.slots;
        next_contacts = set a.next_contacts k (some c);
      },
      rw (room, given) refl,
      omega arith,
    )

-- A contact adds at most one slot, and none unless it touches.
assign_contact-room :
    (c : Contact) (a : Assignment)
    → length a.slots + length (touching (c ∷ [])) ≤ hid_max_contacts
    → (d : Assignment) × (assign_contact c a ≡ (ok tt, d))
      × (length d.slots ≤ length a.slots + length (touching (c ∷ [])))
unfolding assign_contact
assign_contact-room c a h = elim (Bool-cases (bit_and c.flags k_tip == 0)) [
  | inl lifted ↦ rw lifted (a, refl, omega arith)
  | inr touches ↦ rw touches (
      assign_found-room c (find_slot c.identifier a.slots)
        (record a { present = c.identifier ∷ a.present }) (ground (arith, h, touches)))
]

length-touching_cons :
    (c : Contact) (cs : List Contact)
    → length (touching (c ∷ cs)) ≡ length (touching (c ∷ [])) + length (touching cs)
length-touching_cons c cs = elim (Bool-cases (bit_and c.flags k_tip == 0)) [
  | inl lifted ↦ rw lifted (omega arith)
  | inr touches ↦ rw touches (omega arith)
]

assign_contacts-room :
    (cs : List Contact) (a : Assignment)
    → length a.slots + length (touching cs) ≤ hid_max_contacts
    → (d : Assignment) × (assign_contacts cs a ≡ (ok tt, d))
unfolding assign_contacts next_assign
assign_contacts-room [] a h = (a, refl)
assign_contacts-room (c ∷ cs) a h =
    let n = length-touching_cons c cs in
    let (b, e, le) = assign_contact-room c a (omega (arith, n)) in
    let (d, e') = assign_contacts-room cs b (omega (arith, n, le)) in (d, rw e e')

pub after_assign-fits :
    (now : ℕ) (m : Message) (d : Assignment) (s : TouchSession)
    → IsSession s
    → GoodAssignment d
    → (f : IoctlFrame) × (s' : TouchSession) × (after_assign now m (ok tt, d) s ≡ (ok (some f), s'))
unfolding after_assign finish_frame
after_assign-fits now m d s i g =
    let next =
      leave_slots-GoodContacts d.present s.previous_contacts d.slots ([], d.next_contacts)
        i.previous g.next in
    let (out, e, f) =
      report_slots-IsSubmittable 0 _ (frame_header m) (start-InProgress m)
        (omega (arith, next.size)) next.flags in
    let leaving = (leave_slots d.present s.previous_contacts d.slots ([], d.next_contacts)).0 in
    (out, (finish_frame now m leaving d (ok out) s).1, ap (λ r. finish_frame now m leaving d r s) e)

pub process-fits :
    (now : ℕ) (m : Message) (s : TouchSession)
    → IsSession s
    → ValidMessage m
    → IsNextFrame m s
    → length s.slots + length (touching m.contacts) ≤ hid_max_contacts
    → (f : IoctlFrame) × (s' : TouchSession) × (process now m s ≡ (ok (some f), s'))
      × IsSubmittable f
unfolding process_frame
process-fits now m s i v n h =
    let start : Assignment = record {
      present = [];
      slots = s.slots;
      next_contacts = no_contacts;
    } in
    let (d, e) = assign_contacts-room m.contacts start h in
    let g =
      assign_contacts-GoodResult m.contacts start (start_assignment-Good s i)
        (known_contacts m.contacts v.contacts) in
    let gd : GoodAssignment d = subst (λ r. GoodAssignment r.1) e g.good in
    let b : TouchSession = record s {
      sequence_seen = true;
      previous_sequence = m.sequence;
      button_down = button_of m;
    } in
    let (f, s', done) =
      after_assign-fits now m d b (record { slots = i.slots; size = i.size; previous = i.previous })
        gd in
    let result = process-next now m s n ∙ ap (λ r. after_assign now m r b) e ∙ done in
    (
      f,
      s',
      result,
      subst (λ (r : Outcome). GoodAnswer r.0) result (process-GoodOutcome now m s i v).answer,
    )
