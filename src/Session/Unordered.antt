-- ===== src/Session/Unordered.antt =====
-- windows/receiver/TouchSession.cpp: `Process` does not depend on the order in which `slots_`, an
-- unordered map, is walked.
use touchpad.Base.{
  ℕ, ◌+◌, ◌%◌, ◌^◌, ◌≡◌, ◌∙◌, ap, sym, refl, Bool, true, false, not, ◌&&◌, ◌||◌, ◌!=◌,
  if◌then◌else◌, arith, List, [],
}
use touchpad.Ioctl.{IoctlFrame}
use touchpad.Mtp1.Types.{
  Message, MessageType, hello, frame, reset, Error, Result, ok, err, sequence_discontinuity,
  unexpected_hello, before_hello, frame_before_reset,
}
use touchpad.Mtp1.Message.{contains}
use touchpad.Mtp1.Valid.{ValidMessage}
use touchpad.Session.Types.{TouchSession, SlotMap}
use touchpad.Session.Slots.{Assignment}
use touchpad.Session.Frames.{release_all}
use touchpad.Session.Process.{
  Outcome, finish_frame, after_assign, process_frame, process_in_sequence, process, button_of,
}
use touchpad.Session.Assign.{
  GoodSlots, GoodPair, GoodAssignment, assign_contacts-GoodResult, erase_leaving-GoodPair,
}
use touchpad.Session.Leave.{contains-leave_slots}
use touchpad.Session.Invariant.{IsSession, known_contacts, start_assignment-Good}
use touchpad.Session.Same.{SameMap, length-SameMap}
use touchpad.Session.Assigned.{SameResult, assign_contacts-Same, mapped-SameMap}
use touchpad.Session.Erased.{erase_leaving-SameMap}
use touchpad.Session.Put.{leave_slots-SameMap, remember_contacts-SameMap}

-- Two outcomes that differ in the order of the entries of `slots_` at most.
abbrev pub SameOutcome : Outcome → Outcome → Type 0
SameOutcome r r' =
    (r.0 ≡ r'.0)
    × SameMap r.1.slots r'.1.slots
    × (record r.1 { slots = [] } ≡ record r'.1 { slots = [] })

finish_frame-Same :
    (now : ℕ) (m : Message) (l l' : List ℕ) (a b : Assignment) (out : Result IoctlFrame)
    (s : TouchSession) (t : SlotMap)
    → IsSession s
    → GoodAssignment a
    → GoodAssignment b
    → SameMap a.slots b.slots
    → ((id : ℕ) → contains id l ≡ contains id l')
    → SameOutcome
        (finish_frame now m l a out s)
        (finish_frame now m l' b out (record s { slots = t }))
unfolding finish_frame
finish_frame-Same now m l l' a b (err e) s t i g h same left = (refl, same, refl)
finish_frame-Same now m l l' a b (ok out) s t i g h same left =
    let p : GoodPair (a.slots, s.previous_contacts) = (g.slots, g.size, i.previous) in
    let q : GoodPair (b.slots, s.previous_contacts) = (h.slots, h.size, i.previous) in
    let (slots, previous) =
      erase_leaving-SameMap l l' a.slots b.slots s.previous_contacts left p q same in
    let p' = erase_leaving-GoodPair l _ p in
    let q' = erase_leaving-GoodPair l' _ q in
    let remembered = remember_contacts-SameMap m.contacts _ _ _ p'.0 q'.0 slots p'.2.size in
    (
      refl,
      slots,
      rw (sym previous) (
          ap (λ r. record s { slots = []; previous_contacts = r; last_frame_time = now })
            remembered),
    )

after_assign-Same :
    (now : ℕ) (m : Message) (r r' : Result (Unit {0}) × Assignment) (s : TouchSession) (t : SlotMap)
    → IsSession s
    → GoodAssignment r.1
    → GoodAssignment r'.1
    → SameResult r r'
    → SameOutcome (after_assign now m r s) (after_assign now m r' (record s { slots = t }))
unfolding after_assign
after_assign-Same now m (ok u, a) (err y, b) s t i g h (e, same) = absurd (cc)
after_assign-Same now m (err x, a) (ok v, b) s t i g h (e, same) = absurd (cc)
after_assign-Same now m (err x, a) (err y, b) s t i g h (e, same) = (cc, same.slots, refl)
after_assign-Same now m (ok u, a) (ok v, b) s t i g h (e, same) =
    let next =
      leave_slots-SameMap b.present s.previous_contacts a.slots b.slots ([], b.next_contacts)
        g.slots h.slots same.slots h.next.size in
    rw (same.present, same.next, next)
      (finish_frame-Same now m _ _ a b _ s t i g h same.slots (λ id.
        contains-leave_slots id b.present s.previous_contacts a.slots ([], b.next_contacts)
        ∙ ap (λ k. k && not (contains id b.present) || false)
            (mapped-SameMap id a.slots b.slots same.slots)
        ∙ sym
            (contains-leave_slots id b.present s.previous_contacts b.slots ([], b.next_contacts))))

process_frame-Same :
    (now : ℕ) (m : Message) (s : TouchSession) (t : SlotMap)
    → IsSession s
    → GoodSlots t
    → SameMap s.slots t
    → ValidMessage m
    → SameOutcome (process_frame now m s) (process_frame now m (record s { slots = t }))
unfolding process_frame
process_frame-Same now m s t i g same v =
    let known = known_contacts m.contacts v.contacts in
    let start = start_assignment-Good s i in
    let size = length-SameMap s.slots t i.slots g same in
    let start' =
      start_assignment-Good (record s { slots = t })
        (record { slots = g; size = omega (arith, i.size, size); previous = i.previous }) in
    after_assign-Same now m _ _ (record s { button_down = button_of m }) t
      (record { slots = i.slots; size = i.size; previous = i.previous })
      (assign_contacts-GoodResult m.contacts _ start known).good
      (assign_contacts-GoodResult m.contacts _ start' known).good
      (assign_contacts-Same m.contacts _ _ start start' known
        (record { present = refl; slots = same; next = refl }))

refused-Same :
    (b : Bool) (e : Error) (s : TouchSession) (t : SlotMap) (x y : Outcome)
    → SameMap s.slots t
    → SameOutcome x y
    → SameOutcome (if b then (err e, s) else x) (if b then (err e, record s { slots = t }) else y)
refused-Same true e s t x y same h = (refl, same, refl)
refused-Same false e s t x y same h = h

process_in_sequence-Same :
    (now : ℕ) (m : Message) (s : TouchSession) (t : SlotMap) (k : MessageType)
    → IsSession s
    → GoodSlots t
    → SameMap s.slots t
    → ValidMessage m
    → SameOutcome
        (process_in_sequence now m s k)
        (process_in_sequence now m (record s { slots = t }) k)
unfolding process_in_sequence
process_in_sequence-Same now m s t hello i g same v =
    refused-Same (s.hello_seen || s.reset_seen) unexpected_hello s t _ _ same (refl, same, refl)
process_in_sequence-Same now m s t reset i g same v =
    refused-Same (not s.hello_seen) before_hello s t _ _ same
      (unfold release_all in (refl, (λ id. refl), refl))
process_in_sequence-Same now m s t frame i g same v =
    refused-Same (not s.hello_seen) before_hello s t _ _ same (
      refused-Same (not s.reset_seen) frame_before_reset s t _ _ same
        (process_frame-Same now m s t i g same v))

-- `Process` in two sessions of which the entries of `slots_` stand in another order and which are equal
-- otherwise, for a message that `DecodeMessage` lets through: the answers are the same, an error or a
-- report down to the order of its contacts, and the sessions left are equal but for the order of the
-- entries of `slots_`. The invariant holds of the one session, and in the other slots are below five
-- and distinct, and identifiers distinct.
pub process-SameOutcome :
    (now : ℕ) (m : Message) (s : TouchSession) (t : SlotMap)
    → IsSession s
    → GoodSlots t
    → SameMap s.slots t
    → ValidMessage m
    → SameOutcome (process now m s) (process now m (record s { slots = t }))
unfolding process
process-SameOutcome now m s t i g same v =
    refused-Same (s.sequence_seen && m.sequence != (s.previous_sequence + 1) % 2 ^ 32)
      sequence_discontinuity s t _ _ same
      (process_in_sequence-Same now m
        (record s { sequence_seen = true; previous_sequence = m.sequence }) t m.type
        (record { slots = i.slots; size = i.size; previous = i.previous }) g same v)
