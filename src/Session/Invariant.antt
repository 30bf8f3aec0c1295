-- ===== src/Session/Invariant.antt =====
-- windows/receiver/TouchSession.cpp: the invariant of a session, and that every method keeps it and
-- makes only reports that the driver submits.
use touchpad.Base.{
  ℕ, ◌+◌, ◌≤◌, ◌<◌, ◌≡◌, ◌≢◌, ◌-◌, ◌%◌, ◌^◌, ◌!=◌, ◌&&◌, ◌||◌, not, refl, ◌⊎◌, inl, inr, Bool, true,
  false, ltb, if◌then◌else◌, arith, List, [], ◌∷◌, length, All, All-replicate, Option, none, some,
  Bool-cases,
}
use touchpad.Wire.Types.{Contact}
use touchpad.Ioctl.{
  IoctlFrame, IsSubmittable, IsSubmittableContact, zero_ioctl_frame, zero_ioctl_contact,
  ioctl_abi_version, hid_max_contacts, ioctl_frame_reset,
}
use touchpad.Mtp1.Types.{
  Message, MessageType, hello, frame, reset, Error, Result, ok, err, report_capacity, no_free_slot,
  sequence_discontinuity, unexpected_hello, before_hello, frame_before_reset,
}
use touchpad.Mtp1.Valid.{ValidMessage, ValidContact}
use touchpad.Session.Types.{
  TouchSession, no_contacts, new_session, k_frame_timeout, has_active_contacts,
}
use touchpad.Session.Slots.{Assignment}
use touchpad.Session.Frames.{release_all}
use touchpad.Session.Process.{
  Outcome, finish_frame, after_assign, process_frame, process_in_sequence, process, on_disconnect,
  on_timeout, frame_header,
}
use touchpad.Session.Reports.{
  KnownFlags, InProgress, report_slots-IsSubmittable, release_slots-IsSubmittable,
}
use touchpad.Session.Assign.{
  GoodSlots, GoodContacts, GoodAssignment, GoodResult, KnownContact, assign_contacts-GoodResult,
  leave_slots-GoodContacts, erase_leaving-GoodPair, remember_contacts-GoodContacts,
}

-- The map holds at most five identifiers, each once, with slots below five, each once; the remembered
-- contacts fill five places and have known flags.
pub record IsSession (s : TouchSession) : Type 0 where
  pub slots : GoodSlots s.slots
  pub size : length s.slots ≤ hid_max_contacts
  pub previous : GoodContacts s.previous_contacts

-- What `Process` may answer: nothing, a report that the driver submits, or an error that is neither of
-- the two that guard the session against itself.
abbrev pub GoodAnswer : Result (Option IoctlFrame) → Type 0
GoodAnswer (ok none) = Unit
GoodAnswer (ok (some f)) = IsSubmittable f
GoodAnswer (err e) = (e ≢ report_capacity) × (e ≢ no_free_slot)

pub record GoodOutcome (r : Outcome) : Type 0 where
  pub session : IsSession r.1
  pub answer : GoodAnswer r.0

no_contacts-Good : GoodContacts no_contacts
no_contacts-Good = record { size = refl; flags = All-replicate KnownFlags hid_max_contacts none tt }

pub new_session-IsSession : IsSession new_session
new_session-IsSession = record { slots = tt; size = omega arith; previous = no_contacts-Good }

-- A report without contacts is the beginning of one.
empty-InProgress :
    (sequence flags scan_time : ℕ)
    → flags < 4
    → InProgress 0 (record zero_ioctl_frame {
      abi_version = ioctl_abi_version;
      sequence = sequence;
      flags = flags;
      scan_time_100us = scan_time;
    })
empty-InProgress sequence flags scan_time h = record {
  frame = record {
    abi = refl;
    flags = h;
    active = omega arith;
    reported = omega arith;
    storage = refl;
    contacts = All-replicate IsSubmittableContact hid_max_contacts zero_ioctl_contact (record {
      slot = omega arith;
      flags = omega arith;
      x = omega arith;
      y = omega arith;
      reserved = refl;
    });
  };
  reported = omega arith;
  active = omega arith;
}

pub start-InProgress : (m : Message) → InProgress 0 (frame_header m)
start-InProgress m = empty-InProgress m.sequence _ _ (ground arith)

finish_frame-Good :
    (now : ℕ) (m : Message) (leaving : List ℕ) (a : Assignment) (out : IoctlFrame)
    (s : TouchSession)
    → IsSession s
    → GoodAssignment a
    → All KnownContact m.contacts
    → IsSubmittable out
    → GoodOutcome (finish_frame now m leaving a (ok out) s)
unfolding finish_frame
finish_frame-Good now m leaving a out s i g k f =
    let (g', n', p') =
      erase_leaving-GoodPair leaving (a.slots, s.previous_contacts) (g.slots, g.size, i.previous) in
    record {
      session = record {
        slots = g';
        size = n';
        previous = remember_contacts-GoodContacts m.contacts _ _ k p';
      };
      answer = f;
    }

after_assign-Good :
    (now : ℕ) (m : Message) (r : Result (Unit {0}) × Assignment) (s : TouchSession)
    → IsSession s
    → GoodResult r
    → All KnownContact m.contacts
    → GoodOutcome (after_assign now m r s)
unfolding after_assign
after_assign-Good now m (err e, a) s i g k = record {
  session = record { slots = g.good.slots; size = g.good.size; previous = i.previous };
  answer = let same = g.error e refl in ((λ h. absurd (cc)), λ h. absurd (cc));
}
after_assign-Good now m (ok u, a) s i g k =
    let next =
      leave_slots-GoodContacts a.present s.previous_contacts a.slots ([], a.next_contacts)
        i.previous g.good.next in
    let (out, e, f) =
      report_slots-IsSubmittable 0 _ (frame_header m) (start-InProgress m)
        (omega (arith, next.size)) next.flags in
    rw e (finish_frame-Good now m _ a out s i g.good k f)

pub known_contacts : (cs : List Contact) → All ValidContact cs → All KnownContact cs
known_contacts [] v = tt
known_contacts (c ∷ cs) v = (v.0.flags, known_contacts cs v.1)

-- The assignment that a frame starts from.
pub start_assignment-Good :
    (s : TouchSession)
    → IsSession s
    → GoodAssignment (record { present = []; slots = s.slots; next_contacts = no_contacts })
start_assignment-Good s i = record { slots = i.slots; size = i.size; next = no_contacts-Good }

process_frame-Good :
    (now : ℕ) (m : Message) (s : TouchSession)
    → IsSession s
    → ValidMessage m
    → GoodOutcome (process_frame now m s)
unfolding process_frame
process_frame-Good now m s i v =
    let k = known_contacts m.contacts v.contacts in
    after_assign-Good now m _ _ (record { slots = i.slots; size = i.size; previous = i.previous })
      (assign_contacts-GoodResult m.contacts _ (start_assignment-Good s i) k) k

quiet-Good : (s : TouchSession) → IsSession s → GoodOutcome (ok none, s)
quiet-Good s i = record { session = i; answer = tt }

-- A refusal, of another error than the two.
refused-Good :
    (e : Error) (s : TouchSession)
    → IsSession s
    → e ≢ report_capacity
    → e ≢ no_free_slot
    → GoodOutcome (err e, s)
refused-Good e s i a b = record { session = i; answer = (a, b) }

-- What a release leaves.
release_all-IsSession :
    (sequence : ℕ) (r : Bool) (s : TouchSession) → IsSession (release_all sequence r s).1
unfolding release_all
release_all-IsSession sequence r s = record {
  slots = tt;
  size = omega arith;
  previous = no_contacts-Good;
}

release_all-idle :
    (sequence : ℕ) (s : TouchSession) → has_active_contacts (release_all sequence true s).1 ≡ false
unfolding release_all has_active_contacts
release_all-idle sequence s = refl

-- A release is a report that the driver submits, in which nobody touches.
pub release_all-IsSubmittable :
    (sequence : ℕ) (s : TouchSession)
    → IsSession s
    → IsSubmittable (release_all sequence true s).0
      × ((release_all sequence true s).0.active_contact_count ≡ 0)
      × ((release_all sequence true s).0.flags ≡ ioctl_frame_reset)
unfolding release_all
release_all-IsSubmittable sequence s i =
    release_slots-IsSubmittable 0 s.previous_contacts _
      (empty-InProgress sequence 1 0 (omega arith)) (omega (arith, i.previous.size))
      i.previous.flags

released-Good :
    (sequence : ℕ) (s : TouchSession)
    → IsSession s
    → GoodOutcome (ok (some (release_all sequence true s).0), (release_all sequence true s).1)
released-Good sequence s i = record {
  session = release_all-IsSession sequence true s;
  answer = (release_all-IsSubmittable sequence s i).0;
}

if-Good :
    (b : Bool) {x y : Outcome} → GoodOutcome x → GoodOutcome y → GoodOutcome (if b then x else y)
if-Good true g h = g
if-Good false g h = h

process_in_sequence-Good :
    (now : ℕ) (m : Message) (s : TouchSession) (t : MessageType)
    → IsSession s
    → ValidMessage m
    → GoodOutcome (process_in_sequence now m s t)
unfolding process_in_sequence
process_in_sequence-Good now m s hello i v =
    if-Good (s.hello_seen || s.reset_seen)
      (refused-Good unexpected_hello s i (λ h. absurd (cc)) (λ h. absurd (cc)))
      (quiet-Good (record s { hello_seen = true })
        (record { slots = i.slots; size = i.size; previous = i.previous }))
process_in_sequence-Good now m s reset i v =
    if-Good (not s.hello_seen) (refused-Good before_hello s i (λ h. absurd (cc)) (λ h. absurd (cc)))
      (released-Good m.sequence (record s { reset_seen = true })
        (record { slots = i.slots; size = i.size; previous = i.previous }))
process_in_sequence-Good now m s frame i v =
    if-Good (not s.hello_seen) (refused-Good before_hello s i (λ h. absurd (cc)) (λ h. absurd (cc)))
      (if-Good (not s.reset_seen)
        (refused-Good frame_before_reset s i (λ h. absurd (cc)) (λ h. absurd (cc)))
        (process_frame-Good now m s i v))

-- `Process` of a message that `DecodeMessage` lets through: the invariant holds afterwards on every
-- path, also where it throws; a report that it answers is one that the driver submits; and it throws
-- neither of its two internal errors, a full report and a session without a free slot.
pub process-GoodOutcome :
    (now : ℕ) (m : Message) (s : TouchSession)
    → IsSession s
    → ValidMessage m
    → GoodOutcome (process now m s)
unfolding process
process-GoodOutcome now m s i v =
    if-Good (s.sequence_seen && m.sequence != (s.previous_sequence + 1) % 2 ^ 32)
      (refused-Good sequence_discontinuity s i (λ h. absurd (cc)) (λ h. absurd (cc)))
      (process_in_sequence-Good now m
        (record s { sequence_seen = true; previous_sequence = m.sequence }) m.type
        (record { slots = i.slots; size = i.size; previous = i.previous }) v)

-- A reset in which nobody touches, that the driver submits.
abbrev pub IsRelease : IoctlFrame → Type 0
IsRelease f = IsSubmittable f × (f.active_contact_count ≡ 0) × (f.flags ≡ ioctl_frame_reset)

-- Nothing is active, and a session that has not seen a message.
abbrev pub IsForgotten : TouchSession → Type 0
IsForgotten s =
    (has_active_contacts s ≡ false)
    × (s.hello_seen ≡ false)
    × (s.reset_seen ≡ false)
    × (s.sequence_seen ≡ false)

-- `OnDisconnect`: when something is active it answers a reset in which nobody touches, otherwise
-- nothing. In both cases the invariant holds afterwards, nothing is active, and the next message is
-- taken as the first of a session.
pub on_disconnect-IsRelease :
    (s : TouchSession)
    → IsSession s
    → IsSession (on_disconnect s).1
      × IsForgotten (on_disconnect s).1
      × (((has_active_contacts s ≡ false) × ((on_disconnect s).0 ≡ none))
          ⊎ ((has_active_contacts s ≡ true)
              × (f : IoctlFrame) × ((on_disconnect s).0 ≡ some f)
              × IsRelease f))
unfolding on_disconnect release_all has_active_contacts
on_disconnect-IsRelease s i = (
  record { slots = tt; size = omega arith; previous = no_contacts-Good },
  (refl, refl, refl, refl),
  elim (Bool-cases (has_active_contacts s)) [
    | inl active ↦ inr (
      active,
      (release_all s.previous_sequence true s).0,
      rw active refl,
      release_all-IsSubmittable s.previous_sequence s i,
    )
    | inr idle ↦ inl (idle, rw idle refl)
  ],
)

-- `OnTimeout`: when nothing is active, or 200 ms have not passed since the last frame, it answers
-- nothing and changes nothing. Otherwise it answers a reset in which nobody touches, and leaves
-- nothing active. The invariant holds afterwards.
pub on_timeout-IsRelease :
    (now : ℕ) (s : TouchSession)
    → IsSession s
    → IsSession (on_timeout now s).1
      × ((((has_active_contacts s ≡ false) ⊎ (now < s.last_frame_time + k_frame_timeout))
            × (on_timeout now s ≡ (none, s)))
          ⊎ ((has_active_contacts s ≡ true)
              × (s.last_frame_time + k_frame_timeout ≤ now)
              × (f : IoctlFrame) × ((on_timeout now s).0 ≡ some f)
              × IsRelease f
              × (has_active_contacts (on_timeout now s).1 ≡ false)))
unfolding on_timeout
on_timeout-IsRelease now s i =
    elim (Bool-cases
      (not (has_active_contacts s) || ltb (now - s.last_frame_time) k_frame_timeout)) [
        | inl quiet ↦ rw quiet (i, inl (ground (arith, quiet), refl))
        | inr late ↦ rw late (
          release_all-IsSession s.previous_sequence true s,
          inr (
            ground (arith, late),
            ground (arith, late),
            (release_all s.previous_sequence true s).0,
            refl,
            release_all-IsSubmittable s.previous_sequence s i,
            release_all-idle s.previous_sequence s,
          ),
        )
      ]
