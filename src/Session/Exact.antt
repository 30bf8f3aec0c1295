-- ===== src/Session/Exact.antt =====
-- windows/receiver/TouchSession.cpp: exactly which frames `Process` refuses for their contacts.
use touchpad.Base.{
  ℕ, ◌+◌, ◌≤◌, ◌<◌, ◌≡◌, ◌≢◌, ◌∙◌, ap, sym, refl, subst, ◌⊎◌, inl, inr, true, false, ◌==◌,
  if◌then◌else◌, arith, List, [], ◌∷◌, length, Option, none, some, Bool-cases, ltb, bit_and,
}
use touchpad.Wire.Types.{Contact}
use touchpad.Ioctl.{IoctlFrame, hid_max_contacts}
use touchpad.Mtp1.Types.{Message, Result, ok, err, too_many_contacts}
use touchpad.Mtp1.Message.{contains}
use touchpad.Mtp1.Valid.{ValidMessage, FreshIds}
use touchpad.Session.Types.{TouchSession, SlotMap, no_contacts, k_tip}
use touchpad.Session.Slots.{
  Assignment, find_slot, assign_new, assign_found, assign_contact, next_assign, assign_contacts,
}
use touchpad.Session.Process.{after_assign, process_frame, process, button_of}
use touchpad.Session.Allocate.{allocate_slot_lowest}
use touchpad.Session.Assign.{GoodAssignment, assign_contacts-GoodResult}
use touchpad.Session.Invariant.{IsSession, known_contacts, start_assignment-Good}
use touchpad.Session.Stable.{Slot-cases}
use touchpad.Session.Capacity.{IsNextFrame, process-next, after_assign-fits}

-- A contact that touches and has no slot wants one.
abbrev pub wants : Contact → Option ℕ → ℕ
wants c (some k) = 0
wants c none = if bit_and c.flags k_tip == 0 then 0 else 1

-- How many of the contacts want a slot.
abbrev pub wanted : List Contact → SlotMap → ℕ
wanted [] s = 0
wanted (c ∷ cs) s = wants c (find_slot c.identifier s) + wanted cs s

find_slot-other : (i id k : ℕ) (s : SlotMap) → id ≢ i → find_slot i ((id, k) ∷ s) ≡ find_slot i s
unfolding find_slot
find_slot-other i id k s ne = ground (arith, ne)

-- A slot for one identifier is nothing to contacts of others.
wanted-cons :
    (cs : List Contact) (seen : List ℕ) (id k : ℕ) (s : SlotMap)
    → FreshIds seen cs
    → contains id seen ≡ true
    → wanted cs ((id, k) ∷ s) ≡ wanted cs s
wanted-cons [] seen id k s fresh h = refl
wanted-cons (c ∷ cs) seen id k s (new, fresh) h =
    let ne : id ≢ c.identifier = λ e. absurd (cc (ap (λ i. contains i seen) e, h, new)) in
    let rest = wanted-cons cs (c.identifier ∷ seen) id k s fresh (ground (arith, h)) in
    let one = ap (wants c) (find_slot-other c.identifier id k s ne) in omega (arith, rest, one)

-- What the body of the loop does about slots: it gives one exactly to a contact that wants one, and
-- throws exactly when there is none left.
abbrev Given : Contact → Assignment → Assignment → Type 0
Given c a b =
    ((wants c (find_slot c.identifier a.slots) ≡ 0) × (b.slots ≡ a.slots))
    ⊎ ((wants c (find_slot c.identifier a.slots) ≡ 1)
        × (k : ℕ) × (b.slots ≡ (c.identifier, k) ∷ a.slots))

abbrev Step : Contact → Assignment → Result (Unit {0}) × Assignment → Type 0
Step c a r =
    ((length a.slots + wants c (find_slot c.identifier a.slots) ≤ hid_max_contacts)
      × (b : Assignment) × (r ≡ (ok tt, b))
      × Given c a b)
    ⊎ ((hid_max_contacts < length a.slots + wants c (find_slot c.identifier a.slots))
        × (b : Assignment) × (r ≡ (err too_many_contacts, b)))

assign_found-Step :
    (c : Contact) (o : Option ℕ) (a : Assignment)
    → length a.slots ≤ hid_max_contacts
    → (bit_and c.flags k_tip == 0) ≡ false
    → find_slot c.identifier a.slots ≡ o
    → Step c a (assign_found c o (record a { present = c.identifier ∷ a.present }))
unfolding assign_found assign_new
assign_found-Step c (some k) a size down f =
    rw f (inl (omega (arith, size), _, refl, inl (refl, refl)))
assign_found-Step c none a size down f = elim (Bool-cases (ltb (length a.slots) hid_max_contacts)) [
  | inl room ↦
      let (k, given, lt, lowest) = allocate_slot_lowest a.slots (ground (arith, room)) in
      rw (f, down, room, given) (inl (ground (arith, room), _, refl, inr (refl, k, refl)))
  | inr full ↦ rw (f, down, full) (inr (ground (arith, full), _, refl))
]

assign_contact-Step :
    (c : Contact) (a : Assignment)
    → length a.slots ≤ hid_max_contacts
    → Step c a (assign_contact c a)
unfolding assign_contact
assign_contact-Step c a size = elim (Bool-cases (bit_and c.flags k_tip == 0)) [
  | inl lifted ↦
      let nothing : wants c (find_slot c.identifier a.slots) ≡ 0 =
        elim (Slot-cases (find_slot c.identifier a.slots)) [
          | inl (k, e) ↦ rw e refl
          | inr e ↦ rw (e, lifted) refl
        ] in
      rw (lifted, nothing) (inl (omega (arith, size), a, refl, inl (refl, refl)))
  | inr touches ↦
      let r = assign_found-Step c (find_slot c.identifier a.slots) a size touches refl in
      rw touches r
]

-- The loop.
abbrev Exact : ℕ → Result (Unit {0}) × Assignment → Type 0
Exact n r =
    ((n ≤ hid_max_contacts) × (d : Assignment) × (r ≡ (ok tt, d)))
    ⊎ ((hid_max_contacts < n) × (d : Assignment) × (r ≡ (err too_many_contacts, d)))

assign_contacts-Exact :
    (cs : List Contact) (seen : List ℕ) (a : Assignment)
    → length a.slots ≤ hid_max_contacts
    → FreshIds seen cs
    → Exact (length a.slots + wanted cs a.slots) (assign_contacts cs a)
unfolding assign_contacts next_assign
assign_contacts-Exact [] seen a size fresh = inl (omega (arith, size), a, refl)
assign_contacts-Exact (c ∷ cs) seen a size (new, fresh) = elim (assign_contact-Step c a size) [
  | inr (over, b, e) ↦ inr (omega (arith, over), b, ap (λ r. next_assign r (assign_contacts cs)) e)
  | inl (room, b, e, given) ↦
      let grown : (length b.slots ≤ hid_max_contacts)
          × (length b.slots + wanted cs b.slots ≡ length a.slots + wanted (c ∷ cs) a.slots) =
        elim given [
          | inl (nothing, same) ↦ (
            omega (arith, size, ap length same),
            omega (arith, nothing, ap length same, ap (wanted cs) same),
          )
          | inr (one, k, more) ↦ (
            omega (arith, one, room, ap length more),
            omega (
              arith,
              one,
              ap length more,
              ap (wanted cs) more,
              wanted-cons cs (c.identifier ∷ seen) c.identifier k a.slots fresh (ground arith),
            ),
          )
        ] in
      subst (λ n. Exact n (assign_contacts (c ∷ cs) a)) grown.1
        (subst
          (λ r. Exact (length b.slots + wanted cs b.slots) (next_assign r (assign_contacts cs)))
          (sym e) (assign_contacts-Exact cs (c.identifier ∷ seen) b grown.0 fresh))
]

after_assign-refused :
    (now : ℕ) (m : Message) (d : Assignment) (b : TouchSession)
    → (after_assign now m (err too_many_contacts, d) b).0 ≡ err too_many_contacts
unfolding after_assign
after_assign-refused now m d b = refl

-- The next frame of an active session, of distinct contacts, is taken exactly when the slots in use and the
-- touching contacts that have no slot together are at most five, and answers a report then. Otherwise it
-- is refused with the exception of too many contacts. The slots in use are those before the frame: also
-- those of contacts that leave with it.
pub process-exact :
    (now : ℕ) (m : Message) (s : TouchSession)
    → IsSession s
    → ValidMessage m
    → IsNextFrame m s
    → ((length s.slots + wanted m.contacts s.slots ≤ hid_max_contacts)
        × (f : IoctlFrame) × (s' : TouchSession) × (process now m s ≡ (ok (some f), s')))
      ⊎ ((hid_max_contacts < length s.slots + wanted m.contacts s.slots)
          × ((process now m s).0 ≡ err too_many_contacts))
unfolding process_frame
process-exact now m s i v n =
    let start : Assignment = record {
      present = [];
      slots = s.slots;
      next_contacts = no_contacts;
    } in
    let b : TouchSession = record s {
      sequence_seen = true;
      previous_sequence = m.sequence;
      button_down = button_of m;
    } in
    let next = process-next now m s n in
    elim (assign_contacts-Exact m.contacts [] start i.size v.fresh) [
      | inl (room, d, e) ↦
          let g =
            assign_contacts-GoodResult m.contacts start (start_assignment-Good s i)
              (known_contacts m.contacts v.contacts) in
          let gd : GoodAssignment d = subst (λ r. GoodAssignment r.1) e g.good in
          let (f, s', done) =
            after_assign-fits now m d b
              (record { slots = i.slots; size = i.size; previous = i.previous }) gd in
          inl (room, f, s', next ∙ ap (λ r. after_assign now m r b) e ∙ done)
      | inr (over, d, e) ↦ inr (
        over,
        ap (λ r. r.0) (next ∙ ap (λ r. after_assign now m r b) e) ∙ after_assign-refused now m d b,
      )
    ]
