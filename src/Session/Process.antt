-- ===== src/Session/Process.antt =====
-- windows/receiver/TouchSession.cpp: `Process`, `OnDisconnect` and `OnTimeout`. A method returns its
-- result beside the session as it leaves it, also where it throws.
use touchpad.Base.{
  ℕ, ◌+◌, ◌-◌, ◌/◌, ◌%◌, ◌^◌, Bool, true, false, not, ◌&&◌, ◌||◌, ltb, ◌!=◌, if◌then◌else◌, List,
  [], Option, none, some, bit_and,
}
use touchpad.Ioctl.{IoctlFrame, zero_ioctl_frame, ioctl_abi_version, ioctl_frame_button}
use touchpad.Mtp1.Types.{
  Message, MessageType, hello, frame, reset, Result, ok, err, k_frame_button,
  sequence_discontinuity, unexpected_hello, before_hello, frame_before_reset,
}
use touchpad.Session.Types.{TouchSession, no_contacts, k_frame_timeout, has_active_contacts}
use touchpad.Session.Slots.{Assignment, assign_contacts}
use touchpad.Session.Frames.{
  leave_slots, report_slots, erase_leaving, remember_contacts, release_all,
}

abbrev pub Outcome : Type 0
Outcome = Result (Option IoctlFrame) × TouchSession

-- `(message.flags & kFrameButton) != 0`
abbrev pub button_of : Message → Bool
button_of m = bit_and m.flags k_frame_button != 0

-- The report before any contact is in it.
abbrev pub frame_header : Message → IoctlFrame
frame_header m = record zero_ioctl_frame {
  abi_version = ioctl_abi_version;
  sequence = m.sequence;
  flags = if button_of m then ioctl_frame_button else 0;
  scan_time_100us = bit_and (m.capture_time_us / 100) 0xffff % 2 ^ 16;
}

-- The loops behind the third one, which has made the report `out`.
unfoldable pub finish_frame :
    ℕ → Message → List ℕ → Assignment → Result IoctlFrame → TouchSession → Outcome
finish_frame now m leaving a (err e) s = (err e, record s { slots = a.slots })
finish_frame now m leaving a (ok out) s =
    let (slots, previous) = erase_leaving leaving (a.slots, s.previous_contacts) in
    (
      ok (some out),
      record s {
        slots = slots;
        previous_contacts = remember_contacts m.contacts slots previous;
        last_frame_time = now;
      },
    )

-- The loops behind the first one.
unfoldable pub after_assign : ℕ → Message → Result (Unit {0}) × Assignment → TouchSession → Outcome
unfolding finish_frame
after_assign now m (err e, a) s = (err e, record s { slots = a.slots })
after_assign now m (ok u, a) s =
    let (leaving, next) = leave_slots a.present s.previous_contacts a.slots ([], a.next_contacts) in
    finish_frame now m leaving a (report_slots 0 next (frame_header m)) s

-- A FRAME, past the tests on the message type.
unfoldable pub process_frame : ℕ → Message → TouchSession → Outcome
unfolding after_assign
process_frame now m s =
    after_assign now m
      (assign_contacts m.contacts
        (record { present = []; slots = s.slots; next_contacts = no_contacts }))
      (record s { button_down = button_of m })

-- Past the test of the sequence number.
unfoldable pub process_in_sequence : ℕ → Message → TouchSession → MessageType → Outcome
unfolding process_frame
process_in_sequence now m s hello =
    if s.hello_seen || s.reset_seen
    then (err unexpected_hello, s)
    else (ok none, record s { hello_seen = true })
process_in_sequence now m s reset =
    if not s.hello_seen
    then (err before_hello, s)
    else let (out, s') = release_all m.sequence true (record s { reset_seen = true }) in
      (ok (some out), s')
process_in_sequence now m s frame =
    if not s.hello_seen
    then (err before_hello, s)
    else if not s.reset_seen
    then (err frame_before_reset, s)
    else process_frame now m s

-- `now` is what `steady_clock::now()` returns at the end.
unfoldable pub process : ℕ → Message → TouchSession → Outcome
unfolding process_in_sequence
process now m s =
    if s.sequence_seen && m.sequence != (s.previous_sequence + 1) % 2 ^ 32
    then (err sequence_discontinuity, s)
    else process_in_sequence now m
        (record s { sequence_seen = true; previous_sequence = m.sequence }) m.type

unfoldable pub on_disconnect : TouchSession → Option IoctlFrame × TouchSession
unfolding release_all has_active_contacts
on_disconnect s =
    let should_report = has_active_contacts s in
    let (release, s') = release_all s.previous_sequence true s in
    (
      if should_report then some release else none,
      record s' { hello_seen = false; reset_seen = false; sequence_seen = false },
    )

unfoldable pub on_timeout : ℕ → TouchSession → Option IoctlFrame × TouchSession
unfolding release_all has_active_contacts
on_timeout now s =
    if not (has_active_contacts s) || ltb (now - s.last_frame_time) k_frame_timeout
    then (none, s)
    else let (release, s') = release_all s.previous_sequence true s in (some release, s')
