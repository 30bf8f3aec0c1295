-- ===== src/Session/Kept.antt =====
-- windows/receiver/TouchSession.cpp: the slots behind a frame that `Process` accepts.
use touchpad.Base.{
  ℕ, ◌+◌, ◌%◌, ◌^◌, ◌≡◌, ◌∙◌, ap, sym, refl, ◌⊎◌, inl, inr, Bool, true, false, not, ◌&&◌, ◌!=◌,
  if◌then◌else◌, arith, List, [], Option, none, some, Bool-cases, subst,
}
use touchpad.Ioctl.{IoctlFrame}
use touchpad.Mtp1.Types.{
  Message, MessageType, hello, frame, reset, Error, Result, ok, err, before_hello,
  frame_before_reset, sequence_discontinuity,
}
use touchpad.Mtp1.Message.{contains}
use touchpad.Mtp1.Valid.{ValidMessage}
use touchpad.Session.Types.{TouchSession, no_contacts}
use touchpad.Session.Slots.{Assignment, find_slot, assign_contacts}
use touchpad.Session.Frames.{leave_slots, erase_leaving}
use touchpad.Session.Process.{
  Outcome, finish_frame, after_assign, process_frame, process_in_sequence, process, button_of,
}
use touchpad.Session.Assign.{GoodPair, GoodAssignment, assign_contacts-GoodResult}
use touchpad.Session.Invariant.{IsSession, known_contacts, start_assignment-Good}
use touchpad.Session.Stable.{touching, Slot-cases, assign_contacts-Extends}
use touchpad.Session.Leave.{
  mapped, find_slot-mapped, contains-leave_slots, find_slot-erase_leaving, erase_leaving-forgets,
}

-- What the loops of an accepted frame do to the slots.
record Frame (m : Message) (s s' : TouchSession) : Type 0 where
  assigned : Assignment
  assigns :
      assign_contacts m.contacts
        (record { present = []; slots = s.slots; next_contacts = no_contacts })
      ≡ (ok tt, assigned)
  leaves :
      s'.slots
      ≡ (erase_leaving
          (leave_slots assigned.present s.previous_contacts assigned.slots
            ([], assigned.next_contacts)).0
          (assigned.slots, s.previous_contacts)).0

finish_frame-slots :
    (now : ℕ) (m : Message) (leaving : List ℕ) (a : Assignment) (out : Result IoctlFrame)
    (s s' : TouchSession) (o : Option IoctlFrame)
    → finish_frame now m leaving a out s ≡ (ok o, s')
    → s'.slots ≡ (erase_leaving leaving (a.slots, s.previous_contacts)).0
unfolding finish_frame
finish_frame-slots now m leaving a (ok out) s s' o e = ap (λ (r : Outcome). r.1.slots) (sym e)
finish_frame-slots now m leaving a (err x) s s' o e = absurd (cc)

after_assign-Frame :
    (now : ℕ) (m : Message) (s s' : TouchSession) (r : Result (Unit {0}) × Assignment)
    (o : Option IoctlFrame)
    → assign_contacts m.contacts
        (record { present = []; slots = s.slots; next_contacts = no_contacts })
      ≡ r
    → after_assign now m r s ≡ (ok o, s')
    → Frame m s s'
unfolding after_assign
after_assign-Frame now m s s' (ok u, a) o h e = record {
  assigned = a;
  assigns = h;
  leaves = finish_frame-slots now m _ a _ s s' o e;
}
after_assign-Frame now m s s' (err x, a) o h e = absurd (cc)

pub refused-ok :
    (b : Bool) (x : Error) (t : TouchSession) (r : Outcome) {o : Option IoctlFrame}
    {s' : TouchSession}
    → (if b then (err x, t) else r) ≡ (ok o, s')
    → (b ≡ false) × (r ≡ (ok o, s'))
refused-ok true x t r e = absurd (cc)
refused-ok false x t r e = (refl, e)

process_in_sequence-Frame :
    (now : ℕ) (m : Message) (s s' : TouchSession) (t : MessageType) (o : Option IoctlFrame)
    → process_in_sequence now m s t ≡ (ok o, s')
    → t ≡ frame
    → Frame m s s'
unfolding process_in_sequence process_frame
process_in_sequence-Frame now m s s' hello o e h = absurd (cc)
process_in_sequence-Frame now m s s' reset o e h = absurd (cc)
process_in_sequence-Frame now m s s' frame o e h =
    let (a, e₁) = refused-ok (not s.hello_seen) before_hello s _ e in
    let (b, e₂) = refused-ok (not s.reset_seen) frame_before_reset s _ e₁ in
    let f = after_assign-Frame now m (record s { button_down = button_of m }) s' _ o refl e₂ in
    record { assigned = f.assigned; assigns = f.assigns; leaves = f.leaves }

process-Frame :
    (now : ℕ) (m : Message) (s s' : TouchSession) (o : Option IoctlFrame)
    → process now m s ≡ (ok o, s')
    → m.type ≡ frame
    → Frame m s s'
unfolding process
process-Frame now m s s' o e h =
    let (a, e₁) =
      refused-ok (s.sequence_seen && m.sequence != (s.previous_sequence + 1) % 2 ^ 32)
        sequence_discontinuity s _ e in
    let f =
      process_in_sequence-Frame now m
        (record s { sequence_seen = true; previous_sequence = m.sequence }) s' m.type o e₁ h in
    record { assigned = f.assigned; assigns = f.assigns; leaves = f.leaves }

-- The identifier `id` behind the frame: it touches and has a slot, the one it had if it had one, or it
-- does not touch and has none.
abbrev pub SlotAfter : ℕ → Message → TouchSession → TouchSession → Type 0
SlotAfter id m s s' =
    ((contains id (touching m.contacts) ≡ true)
      × (k : ℕ) × (find_slot id s'.slots ≡ some k)
      × ((find_slot id s.slots ≡ none) ⊎ (find_slot id s.slots ≡ some k)))
    ⊎ ((contains id (touching m.contacts) ≡ false) × (find_slot id s'.slots ≡ none))

Frame-SlotAfter :
    (id : ℕ) (m : Message) (s s' : TouchSession)
    → Frame m s s'
    → IsSession s
    → ValidMessage m
    → SlotAfter id m s s'
Frame-SlotAfter id m s s' f i v =
    let x = assign_contacts-Extends m.contacts _ f.assigned f.assigns in
    let g =
      assign_contacts-GoodResult m.contacts _ (start_assignment-Good s i)
        (known_contacts m.contacts v.contacts) in
    let ga : GoodAssignment f.assigned = subst (λ r. GoodAssignment r.1) f.assigns g.good in
    let pair : GoodPair (f.assigned.slots, s.previous_contacts) = (ga.slots, ga.size, i.previous) in
    let left =
      contains-leave_slots id f.assigned.present s.previous_contacts f.assigned.slots
        ([], f.assigned.next_contacts) in
    elim (Bool-cases (contains id (touching m.contacts))) [
      | inl touches ↦
          let (k, e) = x.found id touches in
          let stays =
            find_slot-erase_leaving id _ (f.assigned.slots, s.previous_contacts)
              (left ∙ ground (arith, x.present id, touches)) in
          inl (
            touches,
            k,
            ap (find_slot id) f.leaves ∙ stays ∙ e,
            elim (Slot-cases (find_slot id s.slots)) [
              | inl (j, h) ↦ inr (h ∙ sym (x.keeps id j h) ∙ e)
              | inr h ↦ inl h
            ],
          )
      | inr lifted ↦ inr (
        lifted,
        ap (find_slot id) f.leaves ∙ (elim (Bool-cases (mapped id f.assigned.slots)) [
          | inl here ↦
              erase_leaving-forgets id _ (f.assigned.slots, s.previous_contacts) pair
                (left ∙ ground (arith, x.present id, lifted, here))
          | inr none_yet ↦
              find_slot-erase_leaving id _ (f.assigned.slots, s.previous_contacts)
                (left ∙ ground (arith, none_yet))
              ∙ find_slot-mapped id f.assigned.slots none_yet
        ]),
      )
    ]

-- Behind an accepted frame, exactly the identifiers of the touching contacts have a slot, and one that
-- had a slot before has the same one.
pub process-SlotAfter :
    (now : ℕ) (m : Message) (s s' : TouchSession) (o : Option IoctlFrame) (id : ℕ)
    → IsSession s
    → ValidMessage m
    → m.type ≡ frame
    → process now m s ≡ (ok o, s')
    → SlotAfter id m s s'
process-SlotAfter now m s s' o id i v t e =
    Frame-SlotAfter id m s s' (process-Frame now m s s' o e t) i v
