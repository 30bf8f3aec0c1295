-- ===== src/Agent/Landed.antt =====
-- mac/Agent/main.c: a callback in its two parts, and what its second part leaves.
use touchpad.Base.{
  ℕ, ◌+◌, ◌%◌, ◌^◌, ◌≤◌, ◌<◌, ◌≡◌, ◌≢◌, ◌∙◌, ap, sym, refl, subst, ◌⊎◌, inl, inr, Bool, true, false,
  not, ltb, if◌then◌else◌, arith, Option, none, some, List, length, All, Bool-cases,
}
use touchpad.Wire.Types.{Frame, message_frame, max_contacts, frame_button}
use touchpad.Wire.RoundTrip.{IsSendable, sent_bytes}
use touchpad.Agent.Types.{WireMessage, Agent}
use touchpad.Agent.Capture.{
  MtTouch, count_button, click, button_callback, capture_touches, contact_callback,
  enqueue_frame_locked, enqueue_message, request_reconnect, effective_button_down, tip_pressure,
  press_button, touch_frame,
}
use touchpad.Agent.Threads.{
  Flight, grounded, touching, clicking, contact_arrives, button_arrives, lands,
}
use touchpad.Agent.Fifo.{IsQueue}
use touchpad.Agent.Enqueue.{Enqueued, sent_of, enqueue_frame_locked-Enqueued}
use touchpad.Agent.Touches.{
  IsTouch, button_flag-lt, capture_touches-Captured, touch_frame-IsSendable,
}

lands-if :
    (bytes : List ℕ) (now : ℕ) (b : Bool) (x y : Agent × Flight)
    → lands bytes now (if b then x else y).1 (if b then x else y).0
      ≡ (if b then lands bytes now x.1 x.0 else lands bytes now y.1 y.0)
lands-if bytes now true x y = refl
lands-if bytes now false x y = refl

-- Without a move of the sender between them, the two parts of a callback are the callback.
pub lands-contact_arrives :
    (bytes : List ℕ) (now : ℕ) (touches : Option (List MtTouch)) (count device_time : ℕ) (a : Agent)
    → let arrived = contact_arrives touches count device_time a in
      lands bytes now arrived.1 arrived.0 ≡ contact_callback bytes now touches count device_time a
unfolding lands contact_arrives contact_callback
lands-contact_arrives bytes now none count device_time a =
    lands-if bytes now (not a.connected) _ _
    ∙ ap
        (λ (b : Agent).
          if not a.connected then record a { captured = (a.captured + 1) % 2 ^ 64 } else b)
        (lands-if bytes now (ltb 0 count) _ _)
lands-contact_arrives bytes now (some touches) count device_time a =
    lands-if bytes now (not a.connected) _ _
    ∙ ap
        (λ (b : Agent).
          if not a.connected then record a { captured = (a.captured + 1) % 2 ^ 64 } else b)
        (lands-if bytes now (ltb max_contacts count) _ _)

pub lands-button_arrives :
    (bytes : List ℕ) (now pressed released : ℕ) (a : Agent)
    → let arrived = button_arrives pressed released a in
      lands bytes now arrived.1 arrived.0 ≡ button_callback bytes now pressed released a
unfolding lands button_arrives button_callback
lands-button_arrives bytes now pressed released a =
    elim (Bool-cases (not (count_button pressed released a).connected)) [
      | inl e ↦ rw e refl
      | inr e ↦ rw e refl
    ]

-- A frame that can be sent can be sent with another number and other times.
pub IsSendable-numbered :
    (f : Frame) (sequence now device_time flags : ℕ)
    → IsSendable message_frame f
    → sequence < 2 ^ 32
    → now < 2 ^ 64
    → device_time < 2 ^ 64
    → flags < 2
    → IsSendable message_frame (record f {
      sequence = sequence;
      capture_time_us = now;
      device_time_us = device_time;
      flags = flags;
    })
IsSendable-numbered f sequence now device_time flags v s t d h = record {
  frame = record {
    sequence = s;
    capture_time_us = t;
    device_time_us = d;
    flags = omega arith;
    contact_count = v.frame.contact_count;
    storage = v.frame.storage;
    contacts = v.frame.contacts;
  };
  at_least = v.at_least;
  at_most = v.at_most;
  count = v.count;
  flags = h;
}

-- The ranges of what a callback was called with.
abbrev pub IsFlight : Flight → Type 0
IsFlight grounded = Unit
IsFlight (touching device_time touches) =
    (device_time < 2 ^ 64) × (length touches ≤ max_contacts) × All IsTouch touches
IsFlight clicking = Unit

-- The message of the next number was put into the queue, or the session was given up.
pub record Landed (a a' : Agent) : Type 0 where
  pub frame : Frame
  pub message : WireMessage
  pub numbered : frame.sequence ≡ (a.sequence + 1) % 2 ^ 32
  pub sequence : a'.sequence ≡ frame.sequence
  pub sendable : IsSendable message_frame frame
  pub bytes : sent_of message ≡ sent_bytes message_frame frame
  pub queue : IsQueue a'.queue
  pub enqueued : Enqueued message a a'
  pub latest : IsSendable message_frame a'.latest_frame

enqueue_frame_locked-latest :
    (bytes : List ℕ) (now : ℕ) (f : Frame) (a : Agent)
    → (enqueue_frame_locked bytes now f a).latest_frame ≡ a.latest_frame
unfolding enqueue_frame_locked enqueue_message request_reconnect
enqueue_frame_locked-latest bytes now f a = ground arith

pub click-Landed :
    (bytes : List ℕ) (now : ℕ) (a : Agent)
    → now < 2 ^ 64
    → IsQueue a.queue
    → IsSendable message_frame a.latest_frame
    → Landed a (click bytes now a)
unfolding click
click-Landed bytes now a t i v =
    let down = button_flag-lt (effective_button_down a) in
    let f : Frame = record a.latest_frame {
      flags = if effective_button_down a then frame_button else 0;
      device_time_us = 0;
    } in
    let b : Agent = record a { latest_frame = f } in
    let sendable =
      IsSendable-numbered a.latest_frame ((a.sequence + 1) % 2 ^ 32) now 0
        (if effective_button_down a then frame_button else 0) v (omega arith) t (omega arith)
        down in
    let (m, sent, i', e, s) = enqueue_frame_locked-Enqueued bytes now f b i sendable in
    record {
      frame = record f { sequence = (a.sequence + 1) % 2 ^ 32; capture_time_us = now };
      message = m;
      numbered = refl;
      sequence = s;
      sendable = sendable;
      bytes = sent;
      queue = i';
      enqueued = e;
      latest = subst (IsSendable message_frame) (sym (enqueue_frame_locked-latest bytes now f b)) (
          IsSendable-numbered a.latest_frame a.latest_frame.sequence a.latest_frame.capture_time_us
            0 (if effective_button_down a then frame_button else 0) v v.frame.sequence
            v.frame.capture_time_us (omega arith) down);
    }

capture_touches-latest :
    (bytes : List ℕ) (now device_time : ℕ) (ts : List MtTouch) (a : Agent)
    → All IsTouch ts
    → length ts ≤ max_contacts
    → device_time < 2 ^ 64
    → IsSendable message_frame (capture_touches bytes now device_time ts a).latest_frame
unfolding capture_touches
capture_touches-latest bytes now device_time ts a h n d =
    let (tips, pressure) = tip_pressure ts (0, 0) in
    let b = press_button tips pressure a in
    let f = touch_frame device_time ts b in
    let same : f.sequence ≡ 0 = refl in
    subst (IsSendable message_frame)
      (sym (enqueue_frame_locked-latest bytes now f (record b { latest_frame = f })))
      (touch_frame-IsSendable device_time 0 0 ts b h n d (omega arith) (omega arith))

-- The second part of a callback that is on its way.
pub lands-Landed :
    (bytes : List ℕ) (now : ℕ) (flight : Flight) (a : Agent)
    → now < 2 ^ 64
    → IsFlight flight
    → IsQueue a.queue
    → IsSendable message_frame a.latest_frame
    → ((flight ≡ grounded) × (lands bytes now flight a ≡ a))
      ⊎ ((flight ≢ grounded) × Landed a (lands bytes now flight a))
unfolding lands
lands-Landed bytes now grounded a t h i v = inl (refl, refl)
lands-Landed bytes now (touching device_time ts) a t (d, n, h) i v =
    let (f, m, s, s', contacts, sendable, sent, i', e) =
      capture_touches-Captured bytes now device_time ts a h n d t i in
    inr (
      (λ e. absurd (cc)),
      record {
        frame = f;
        message = m;
        numbered = s;
        sequence = s';
        sendable = sendable;
        bytes = sent;
        queue = i';
        enqueued = e;
        latest = capture_touches-latest bytes now device_time ts a h n d;
      },
    )
lands-Landed bytes now clicking a t h i v = inr ((λ e. absurd (cc)), click-Landed bytes now a t i v)
