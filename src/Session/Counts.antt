-- ===== src/Session/Counts.antt =====
-- windows/receiver/TouchSession.cpp: the number of active contacts that `Process` reports.
use touchpad.Base.{
  ℕ, zero, suc, ◌+◌, ◌≡◌, ◌∙◌, ap, sym, refl, inl, inr, true, not, ◌&&◌, ◌!=◌, ◌%◌, ◌^◌, arith, [],
  length, get_or, replicate, Option, none, some,
}
use touchpad.Wire.Types.{Contact}
use touchpad.Ioctl.{IoctlFrame}
use touchpad.Mtp1.Types.{
  Message, frame, Result, ok, err, before_hello, frame_before_reset, sequence_discontinuity,
}
use touchpad.Mtp1.Valid.{ValidMessage}
use touchpad.Session.Types.{TouchSession, no_contacts}
use touchpad.Session.Slots.{Assignment, assign_contacts}
use touchpad.Session.Frames.{leave_slots, report_slots}
use touchpad.Session.Process.{
  after_assign, process_frame, process_in_sequence, process, frame_header, button_of,
}
use touchpad.Session.Invariant.{IsSession, known_contacts, start_assignment-Good}
use touchpad.Session.Stable.{touching}
use touchpad.Session.Kept.{refused-ok}
use touchpad.Session.Lifecycle.{finish_frame-Accepted}
use touchpad.Session.Owners.{tip_of, tips-le, report_slots-tips}
use touchpad.Session.Active.{assign_contacts-Tracked}
use touchpad.Session.Lifted.{Within-all, leave_slots-tips}

-- How the report of an accepted frame is made.
record Reported (m : Message) (s : TouchSession) (f : IoctlFrame) : Type 0 where
  assigned : Assignment
  assigns :
      assign_contacts m.contacts
        (record { present = []; slots = s.slots; next_contacts = no_contacts })
      ≡ (ok tt, assigned)
  reports :
      report_slots 0
        (leave_slots assigned.present s.previous_contacts assigned.slots
          ([], assigned.next_contacts)).1
        (frame_header m)
      ≡ ok f

after_assign-Reported :
    (now : ℕ) (m : Message) (s s' : TouchSession) (r : Result (Unit {0}) × Assignment)
    (f : IoctlFrame)
    → assign_contacts m.contacts
        (record { present = []; slots = s.slots; next_contacts = no_contacts })
      ≡ r
    → after_assign now m r s ≡ (ok (some f), s')
    → Reported m s f
unfolding after_assign
after_assign-Reported now m s s' (ok u, a) f h e =
    let (p, q, b, n, c, g, same, out) = finish_frame-Accepted now m _ a _ s s' (some f) e in
    let equal : g ≡ f = cc in record { assigned = a; assigns = h; reports = out ∙ ap ok equal }
after_assign-Reported now m s s' (err x, a) f h e = absurd (cc)

process-Reported :
    (now : ℕ) (m : Message) (s s' : TouchSession) (f : IoctlFrame)
    → process now m s ≡ (ok (some f), s')
    → m.type ≡ frame
    → Reported m s f
unfolding process process_in_sequence process_frame
process-Reported now m s s' f e t =
    let (a, e₁) =
      refused-ok (s.sequence_seen && m.sequence != (s.previous_sequence + 1) % 2 ^ 32)
        sequence_discontinuity s _ e in
    let n : TouchSession = record s { sequence_seen = true; previous_sequence = m.sequence } in
    let e₂ : process_in_sequence now m n frame ≡ (ok (some f), s') =
      ap (process_in_sequence now m n) (sym t) ∙ e₁ in
    let (b, e₃) = refused-ok (not s.hello_seen) before_hello n _ e₂ in
    let (c, e₄) = refused-ok (not s.reset_seen) frame_before_reset n _ e₃ in
    let r = after_assign-Reported now m (record n { button_down = button_of m }) s' _ f refl e₄ in
    record { assigned = r.assigned; assigns = r.assigns; reports = r.reports }

empty_slot : (n k : ℕ) → get_or (replicate {A = Option Contact} n none) k none ≡ none
empty_slot zero k = refl
empty_slot (suc n) zero = refl
empty_slot (suc n) (suc k) = empty_slot n k

-- The report of an accepted frame says how many contacts touch: exactly the contacts of the message whose
-- tip flag is set are counted, whatever the session held, whatever has left and keeps a place in the report.
-- The message is a valid one and the invariant holds of the session.
pub process-active_contact_count :
    (now : ℕ) (m : Message) (s s' : TouchSession) (f : IoctlFrame)
    → IsSession s
    → ValidMessage m
    → m.type ≡ frame
    → process now m s ≡ (ok (some f), s')
    → f.active_contact_count ≡ length (touching m.contacts)
process-active_contact_count now m s s' f i v t e =
    let r = process-Reported now m s s' f e t in
    let a = r.assigned in
    let begin : Assignment = record {
      present = [];
      slots = s.slots;
      next_contacts = no_contacts;
    } in
    let known = known_contacts m.contacts v.contacts in
    let ((g, owned), count) =
      assign_contacts-Tracked m.contacts [] begin a
        (record {
          good = start_assignment-Good s i;
          present = λ id h. absurd (cc);
          owned = λ k. inl (empty_slot 5 k);
        })
        known v.fresh r.assigns in
    let (kept, size) =
      leave_slots-tips a.present s.previous_contacts a.slots a.slots ([], a.next_contacts)
        i.previous g.next.size g.slots (Within-all a.slots g.slots)
        (λ k. elim (owned k) [ inl free ↦ inl (ap tip_of free) | inr owner ↦ inr owner ]) in
    let next = (leave_slots a.present s.previous_contacts a.slots ([], a.next_contacts)).1 in
    let reported =
      report_slots-tips 0 next (frame_header m) f r.reports (omega (arith, tips-le next, size)) in
    omega (arith, reported, kept, count)
