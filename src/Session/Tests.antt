-- ===== src/Session/Tests.antt =====
-- windows/receiver/TouchSession.cpp: coordinates, and the theorems about the session on concrete messages.
use touchpad.Base.{
  length, ℕ, ◌+◌, ◌≤◌, ◌<◌, ◌⊎◌, arith, ◌%◌, ◌^◌, ◌≡◌, refl, [], ◌∷◌, some, none, true, false,
}
use touchpad.Ioctl.{IoctlFrame, IsSubmittable, hid_max_contacts}
use touchpad.Mtp1.Types.{frame, ok, err, too_many_contacts}
use touchpad.Session.Types.{
  TouchSession, SlotMap, new_session, has_active_contacts, k_frame_timeout,
}
use touchpad.Session.Slots.{allocate_slot, find_slot, slot_used}
use touchpad.Session.Process.{process, on_disconnect, on_timeout}
use touchpad.Session.Allocate.{LowestFree, allocate_slot_lowest}
use touchpad.Session.Invariant.{
  IsSession, GoodOutcome, IsForgotten, IsRelease, process-GoodOutcome, on_disconnect-IsRelease,
  on_timeout-IsRelease,
}
use touchpad.Session.Assign.{GoodSlots}
use touchpad.Session.Stable.{touching}
use touchpad.Session.Same.{SameMap}
use touchpad.Session.Unordered.{SameOutcome, process-SameOutcome}
use touchpad.Session.Counts.{process-active_contact_count}
use touchpad.Session.Kept.{SlotAfter, process-SlotAfter}
use touchpad.Session.Lifecycle.{Accepted, process-Accepted}
use touchpad.Session.Capacity.{IsNextFrame, process-fits}
use touchpad.Session.Exact.{wanted, process-exact}
use touchpad.Session.Reach.{IsPhased, start, more, message, Reachable-Invariant}
use touchpad.Samples.{
  greeting, greeting-ValidMessage, two_fingers, two_fingers-ValidMessage, touched,
  touched-IsSession, crowded,
}
use touchpad.Session.Logical.{
  float_of, excess_bits, round_quotient, round_to_float, clamp_unit, lround, logical, one_minus,
  to_logical, to_logical_y,
}

half : to_logical 0x3f00_0000 ≡ 16384
unfolding to_logical logical lround round_to_float round_quotient excess_bits clamp_unit float_of
half = refl

quarter_up : to_logical_y 0x3e80_0000 ≡ 24575
unfolding to_logical_y one_minus logical lround round_to_float round_quotient excess_bits clamp_unit
    float_of
quarter_up = refl

minus_one : to_logical 0xbf80_0000 ≡ 0
unfolding to_logical logical lround round_to_float round_quotient excess_bits clamp_unit float_of
minus_one = refl

two_up : to_logical_y 0x4000_0000 ≡ 0
unfolding to_logical_y one_minus logical lround round_to_float round_quotient excess_bits clamp_unit
    float_of
two_up = refl

allocate_slot_lowest_example :
    (k : ℕ) × (allocate_slot ((7, 0) ∷ (8, 2) ∷ []) ≡ ok k)
    × (k < hid_max_contacts)
    × LowestFree 0 k ((7, 0) ∷ (8, 2) ∷ [])
allocate_slot_lowest_example = allocate_slot_lowest ((7, 0) ∷ (8, 2) ∷ []) (omega arith)

process-GoodOutcome_example : GoodOutcome (process 0 two_fingers touched)
process-GoodOutcome_example =
    process-GoodOutcome 0 two_fingers touched touched-IsSession two_fingers-ValidMessage

on_disconnect-IsRelease_example :
    IsSession (on_disconnect touched).1
    × IsForgotten (on_disconnect touched).1
    × (((has_active_contacts touched ≡ false) × ((on_disconnect touched).0 ≡ none))
        ⊎ ((has_active_contacts touched ≡ true)
            × (f : IoctlFrame) × ((on_disconnect touched).0 ≡ some f)
            × IsRelease f))
on_disconnect-IsRelease_example = on_disconnect-IsRelease touched touched-IsSession

abbrev late : ℕ
late = 300_000_000

on_timeout-IsRelease_example :
    IsSession (on_timeout late touched).1
    × ((((has_active_contacts touched ≡ false) ⊎ (late < 0 + k_frame_timeout))
          × (on_timeout late touched ≡ (none, touched)))
        ⊎ ((has_active_contacts touched ≡ true)
            × (0 + k_frame_timeout ≤ late)
            × (f : IoctlFrame) × ((on_timeout late touched).0 ≡ some f)
            × IsRelease f
            × (has_active_contacts (on_timeout late touched).1 ≡ false)))
on_timeout-IsRelease_example = on_timeout-IsRelease late touched touched-IsSession

two_fingers-IsNextFrame : IsNextFrame two_fingers touched
two_fingers-IsNextFrame = record {
  hello_seen = refl;
  reset_seen = refl;
  sequence_seen = refl;
  sequence = refl;
  type = refl;
}

-- The report for the two fingers and the session behind it.
two_fingers_taken :
    (f : IoctlFrame) × (s : TouchSession) × (process 0 two_fingers touched ≡ (ok (some f), s))
    × IsSubmittable f
two_fingers_taken =
    process-fits 0 two_fingers touched touched-IsSession two_fingers-ValidMessage
      two_fingers-IsNextFrame (omega arith)

process-SlotAfter_example : SlotAfter 7 two_fingers touched (two_fingers_taken.1)
process-SlotAfter_example =
    process-SlotAfter 0 two_fingers touched two_fingers_taken.1 (some two_fingers_taken.0) 7
      touched-IsSession two_fingers-ValidMessage refl two_fingers_taken.2

process-active_contact_count_example :
    two_fingers_taken.0.active_contact_count ≡ length (touching two_fingers.contacts)
process-active_contact_count_example =
    process-active_contact_count 0 two_fingers touched two_fingers_taken.1 two_fingers_taken.0
      touched-IsSession two_fingers-ValidMessage refl two_fingers_taken.2

-- Two identifiers have slots, and the same map the other way round.
abbrev two_slots : TouchSession
two_slots = record touched { slots = (7, 3) ∷ (11, 1) ∷ [] }

abbrev turned : SlotMap
turned = (11, 1) ∷ (7, 3) ∷ []

two_slots-IsSession : IsSession two_slots
unfolding find_slot slot_used
two_slots-IsSession = record {
  slots = (omega arith, refl, refl, (omega arith, refl, refl, tt));
  size = omega arith;
  previous = touched-IsSession.previous;
}

turned-GoodSlots : GoodSlots turned
unfolding find_slot slot_used
turned-GoodSlots = (omega arith, refl, refl, (omega arith, refl, refl, tt))

turned-SameMap : SameMap two_slots.slots turned
unfolding find_slot
turned-SameMap id = ground arith

process-SameOutcome_example :
    SameOutcome
      (process 0 two_fingers two_slots)
      (process 0 two_fingers (record two_slots { slots = turned }))
process-SameOutcome_example =
    process-SameOutcome 0 two_fingers two_slots turned two_slots-IsSession turned-GoodSlots
      turned-SameMap two_fingers-ValidMessage

process-Accepted_example :
    ((touched.sequence_seen ≡ false)
      ⊎ (two_fingers.sequence ≡ (touched.previous_sequence + 1) % 2 ^ 32))
    × (two_fingers_taken.1.sequence_seen ≡ true)
    × (two_fingers_taken.1.previous_sequence ≡ two_fingers.sequence)
    × Accepted frame two_fingers (some two_fingers_taken.0) touched two_fingers_taken.1
process-Accepted_example =
    process-Accepted 0 two_fingers touched two_fingers_taken.1 (some two_fingers_taken.0)
      two_fingers_taken.2

Reachable-Invariant_example :
    IsSession (process 0 greeting new_session).1 × IsPhased (process 0 greeting new_session).1
Reachable-Invariant_example =
    Reachable-Invariant (more start (message 0 greeting greeting-ValidMessage))

-- Five other fingers touch.
crowded-IsSession : IsSession crowded
unfolding find_slot slot_used
crowded-IsSession = record {
  slots = (
    omega arith,
    refl,
    refl,
    (
      omega arith,
      refl,
      refl,
      (omega arith, refl, refl, (omega arith, refl, refl, (omega arith, refl, refl, tt))),
    ),
  );
  size = omega arith;
  previous = touched-IsSession.previous;
}

process-exact_example :
    ((length crowded.slots + wanted two_fingers.contacts crowded.slots ≤ hid_max_contacts)
      × (f : IoctlFrame) × (s : TouchSession) × (process 0 two_fingers crowded ≡ (ok (some f), s)))
    ⊎ ((hid_max_contacts < length crowded.slots + wanted two_fingers.contacts crowded.slots)
        × ((process 0 two_fingers crowded).0 ≡ err too_many_contacts))
process-exact_example =
    process-exact 0 two_fingers crowded crowded-IsSession two_fingers-ValidMessage (record {
      hello_seen = refl;
      reset_seen = refl;
      sequence_seen = refl;
      sequence = refl;
      type = refl;
    })
