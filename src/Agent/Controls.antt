-- ===== src/Agent/Controls.antt =====
-- mac/Agent/main.c: what `send_control` sends, and what a message of the queue adds to a connection.
use mathlib.Core.List.{append-nil}
use touchpad.Base.{
  ℕ, ◌+◌, ◌%◌, ◌^◌, ◌<◌, ◌≡◌, ◌∙◌, ap, ap₂, inl, inr, Option, sym, refl, Bool, true, false, ◌==◌,
  arith, some, List, ◌++◌, All-replicate,
}
use touchpad.Wire.Types.{Frame, IsContact, zero_frame, zero_contact, max_contacts, max_message_size}
use touchpad.Wire.RoundTrip.{
  IsSendable, sent_bytes, sent_size, sent_count-le, length-sent_bytes, encode_message-sent,
}
use touchpad.Mtp1.Types.{MessageType}
use touchpad.Mtp1.Valid.{code}
use touchpad.Agent.Types.{Agent}
use touchpad.Agent.Send.{Sent, SendsPrefix, send_all, send_control, send_all-SendsPrefix}
use touchpad.Agent.Enqueue.{take-write}
use touchpad.Agent.Touches.{zero_contact-IsContact}

-- The frame of a control message.
abbrev pub control_frame : ℕ → ℕ → Frame
control_frame sequence now = record zero_frame { sequence = sequence; capture_time_us = now }

pub control_frame-IsSendable :
    (t : MessageType) (sequence now : ℕ)
    → sequence < 2 ^ 32
    → now < 2 ^ 64
    → IsSendable (code t) (control_frame sequence now)
control_frame-IsSendable t sequence now s h = record {
  frame = record {
    sequence = s;
    capture_time_us = h;
    device_time_us = omega arith;
    flags = omega arith;
    contact_count = omega arith;
    storage = refl;
    contacts = All-replicate IsContact max_contacts zero_contact zero_contact-IsContact;
  };
  at_least = ground arith;
  at_most = ground arith;
  count = omega arith;
  flags = ground arith;
}

-- `send_control` is `send_all` of the message with the next number, which it takes.
pub send_control-eq :
    (bytes : List ℕ) (now : ℕ) (answers : List Sent) (t : MessageType) (a : Agent)
    → now < 2 ^ 64
    → let n = (a.sequence + 1) % 2 ^ 32 in
      send_control bytes now answers (code t) a
      ≡ (send_all answers (sent_bytes (code t) (control_frame n now)), record a { sequence = n })
unfolding send_control
send_control-eq bytes now answers t a h =
    let n = (a.sequence + 1) % 2 ^ 32 in
    let f = control_frame n now in
    let v = control_frame-IsSendable t n now (omega arith) h in
    let e =
      encode_message-sent bytes max_message_size v
        (omega (arith, sent_count-le (code t) f (omega arith))) in
    let some_bytes : (sent_size (code t) f == 0) ≡ false = ground arith in
    let whole =
      take-write (sent_bytes (code t) f) bytes (sent_size (code t) f) (sym (length-sent_bytes v)) in
    rw (e, some_bytes, whole) refl

-- So it sends a beginning of the message.
pub send_control-SendsPrefix :
    (bytes : List ℕ) (now : ℕ) (answers : List Sent) (t : MessageType) (a : Agent)
    → now < 2 ^ 64
    → let n = (a.sequence + 1) % 2 ^ 32 in
      let r = send_control bytes now answers (code t) a in
      SendsPrefix r.0 (sent_bytes (code t) (control_frame n now))
      × (r.1 ≡ record a { sequence = n })
send_control-SendsPrefix bytes now answers t a h =
    let f = control_frame ((a.sequence + 1) % 2 ^ 32) now in
    rw (send_control-eq bytes now answers t a h)
      (send_all-SendsPrefix answers (sent_bytes (code t) f), refl)

-- When `send_all` answers true, it has sent the bytes.
pub send_all-whole :
    (answers : List Sent) (bytes : List ℕ)
    → (send_all answers bytes).0 ≡ some true
    → send_all answers bytes ≡ (some true, bytes)
send_all-whole answers bytes h =
    let (rest, e, p) = send_all-SendsPrefix answers bytes in
    ap₂ (λ (x : Option Bool) (l : List ℕ). (x, l)) h
      (elim p [
        | inr (short, r) ↦ absurd (short h)
        | inl (answered, none_left) ↦
            sym (append-nil (send_all answers bytes).1)
            ∙ ap (λ (l : List ℕ). (send_all answers bytes).1 ++ l) (sym none_left)
            ∙ e
      ])
