-- ===== src/Agent/Touches.antt =====
-- mac/Agent/main.c: the frames that `contact_callback` makes of touches, up to the queue.
use touchpad.Base.{
  ℕ, suc, ◌+◌, ◌-◌, ◌%◌, ◌^◌, ◌≤◌, ◌<◌, ◌≡◌, ◌∙◌, ap, sym, refl, subst, inl, inr, Bool, true, false,
  not, ltb, if◌then◌else◌, arith, some, List, [], ◌∷◌, ◌++◌, take, length, length-append,
  length-replicate, length-take, replicate, take-append, All, All-append, All-replicate, All-take,
}
use touchpad.Wire.Types.{Frame, IsContact, zero_contact, max_contacts, message_frame, frame_button}
use touchpad.Wire.RoundTrip.{IsSendable, sent_bytes}
use touchpad.Agent.Types.{WireMessage, MessageQueue, Agent}
use touchpad.Agent.Capture.{
  MtTouch, tip_pressure, press_button, touch_contact, touch_contacts, touch_frame, capture_touches,
  contact_callback, enqueue_frame_locked, effective_button_down,
}
use touchpad.Agent.Shown.{ShowsAll, touch_contacts-ShowsAll}
use touchpad.Agent.Fifo.{IsQueue, contents}
use touchpad.Agent.Enqueue.{flags_for_state-known, Enqueued, sent_of, enqueue_frame_locked-Enqueued}

-- The ranges of the fields.
pub record IsTouch (t : MtTouch) : Type 0 where
  pub identifier : t.identifier < 2 ^ 32
  pub position_x : t.position_x < 2 ^ 32
  pub position_y : t.position_y < 2 ^ 32
  pub velocity_x : t.velocity_x < 2 ^ 32
  pub velocity_y : t.velocity_y < 2 ^ 32
  pub size : t.size < 2 ^ 32
  pub angle : t.angle < 2 ^ 32
  pub major_axis : t.major_axis < 2 ^ 32
  pub minor_axis : t.minor_axis < 2 ^ 32
  pub density : t.density < 2 ^ 32

touch_contact-IsContact : (t : MtTouch) → IsTouch t → IsContact (touch_contact t)
unfolding touch_contact
touch_contact-IsContact t h = record {
  identifier = h.identifier;
  state = omega arith;
  flags = omega (arith, (flags_for_state-known t.state).0);
  x = h.position_x;
  y = h.position_y;
  velocity_x = h.velocity_x;
  velocity_y = h.velocity_y;
  size = h.size;
  angle = h.angle;
  major_axis = h.major_axis;
  minor_axis = h.minor_axis;
  density = h.density;
}

touch_contacts-IsContact : (ts : List MtTouch) → All IsTouch ts → All IsContact (touch_contacts ts)
unfolding touch_contacts
touch_contacts-IsContact [] h = tt
touch_contacts-IsContact (t ∷ ts) h =
    (touch_contact-IsContact t h.0, touch_contacts-IsContact ts h.1)

length-touch_contacts : (ts : List MtTouch) → length (touch_contacts ts) ≡ length ts
unfolding touch_contacts
length-touch_contacts [] = refl
length-touch_contacts (t ∷ ts) = ap suc (length-touch_contacts ts)

pub zero_contact-IsContact : IsContact zero_contact
zero_contact-IsContact = record {
  identifier = omega arith;
  state = omega arith;
  flags = omega arith;
  x = omega arith;
  y = omega arith;
  velocity_x = omega arith;
  velocity_y = omega arith;
  size = omega arith;
  angle = omega arith;
  major_axis = omega arith;
  minor_axis = omega arith;
  density = omega arith;
}

pub button_flag-lt : (b : Bool) → (if b then frame_button else 0) < 2
button_flag-lt true = omega arith
button_flag-lt false = omega arith

-- The frame of at most ten touches is one that the encoder accepts, whatever number and time it gets.
pub touch_frame-IsSendable :
    (device_time now sequence : ℕ) (ts : List MtTouch) (a : Agent)
    → All IsTouch ts
    → length ts ≤ max_contacts
    → device_time < 2 ^ 64
    → now < 2 ^ 64
    → sequence < 2 ^ 32
    → IsSendable message_frame
        (record (touch_frame device_time ts a) { sequence = sequence; capture_time_us = now })
unfolding touch_frame
touch_frame-IsSendable device_time now sequence ts a h n d t s = record {
  frame = record {
    sequence = s;
    capture_time_us = t;
    device_time_us = d;
    flags = omega (arith, button_flag-lt (effective_button_down a));
    contact_count = omega arith;
    storage =
        length-append (touch_contacts ts) (replicate (max_contacts - length ts) zero_contact)
        ∙ omega (
          arith,
          length-touch_contacts ts,
          length-replicate (max_contacts - length ts) zero_contact,
        );
    contacts =
        All-append IsContact (touch_contacts ts) (replicate (max_contacts - length ts) zero_contact)
          (touch_contacts-IsContact ts h)
          (All-replicate IsContact (max_contacts - length ts) zero_contact zero_contact-IsContact);
  };
  at_least = omega arith;
  at_most = omega arith;
  count = omega arith;
  flags = button_flag-lt (effective_button_down a);
}

-- The click by pressure leaves the queue and the session alone.
pub press_button-keeps :
    (tips pressure : ℕ) (a : Agent)
    → let a' = press_button tips pressure a in
      (a'.queue ≡ a.queue)
      × (a'.sequence ≡ a.sequence)
      × (a'.connected ≡ a.connected)
      × (a'.dropped ≡ a.dropped)
unfolding press_button
press_button-keeps tips pressure a = (ground arith, ground arith, ground arith, ground arith)

-- The touches `ts` have become the frame `f`, which is numbered behind those of `a`, and its message, of
-- which exactly the encoded bytes are sent, was put into the queue, or the session was given up.
abbrev pub Captured : List MtTouch → Agent → Agent → Type 0
Captured ts a a' =
    (f : Frame) × (m : WireMessage) × (f.sequence ≡ (a.sequence + 1) % 2 ^ 32)
    × (a'.sequence ≡ f.sequence)
    × ShowsAll ts (take f.contact_count f.contacts)
    × IsSendable message_frame f
    × (sent_of m ≡ sent_bytes message_frame f)
    × IsQueue a'.queue
    × Enqueued m a a'

-- `Enqueued` looks at the queue, the connection and the count of drops alone.
Enqueued-keeps :
    (m : WireMessage) (a b a' : Agent)
    → b.queue ≡ a.queue
    → b.connected ≡ a.connected
    → b.dropped ≡ a.dropped
    → Enqueued m b a'
    → Enqueued m a a'
Enqueued-keeps m a b a' q c d (inl (e, e', e'')) =
    inl (e ∙ ap (λ p. contents p ++ (m ∷ [])) q, e' ∙ c, e'' ∙ d)
Enqueued-keeps m a b a' q c d (inr (e, e', r, e'', full)) = inr (
  e,
  e',
  r,
  e'' ∙ ap (λ (n : ℕ). (n + 1) % 2 ^ 64) d,
  ap (λ (p : MessageQueue). p.count) (sym q) ∙ full,
)

touch_frame-contacts :
    (device_time : ℕ) (ts : List MtTouch) (a : Agent)
    → length ts ≤ max_contacts
    → take (touch_frame device_time ts a).contact_count (touch_frame device_time ts a).contacts
      ≡ touch_contacts ts
unfolding touch_frame
touch_frame-contacts device_time ts a n =
    take-append (touch_contacts ts) (replicate (max_contacts - length ts) zero_contact)
      (length ts % 2 ^ 16) (omega (arith, length-touch_contacts ts))

module _ (bytes : List ℕ) (now : ℕ) where
  pub capture_touches-Captured :
      (device_time : ℕ) (ts : List MtTouch) (a : Agent)
      → All IsTouch ts
      → length ts ≤ max_contacts
      → device_time < 2 ^ 64
      → now < 2 ^ 64
      → IsQueue a.queue
      → Captured ts a (capture_touches bytes now device_time ts a)
  unfolding capture_touches
  capture_touches-Captured device_time ts a h n d t i =
      let (tips, pressure) = tip_pressure ts (0, 0) in
      let b = press_button tips pressure a in
      let (q, s, c, dr) = press_button-keeps tips pressure a in
      let f = touch_frame device_time ts b in
      let b' : Agent = record b { latest_frame = f } in
      let v =
        touch_frame-IsSendable device_time now ((b.sequence + 1) % 2 ^ 32) ts b h n d t
          (omega arith) in
      let (m, sent, i', e, s') =
        enqueue_frame_locked-Enqueued bytes now f b' (subst IsQueue (sym q) i) v in
      (
        record f { sequence = (b.sequence + 1) % 2 ^ 32; capture_time_us = now },
        m,
        ap (λ (k : ℕ). (k + 1) % 2 ^ 32) s,
        s',
        subst (ShowsAll ts) (sym (touch_frame-contacts device_time ts b n))
            (touch_contacts-ShowsAll ts),
        v,
        sent,
        i',
        Enqueued-keeps m a b' (enqueue_frame_locked bytes now f b') q c dr e,
      )

passes : (b : Bool) (x y : Agent) → b ≡ false → (if b then x else y) ≡ y
passes true x y h = absurd (cc)
passes false x y h = refl

-- A callback of at most ten touches, in an agent that is connected: the touches become the contacts of
-- a frame, in their order and with the flags of their states, that gets the next sequence number,
-- modulo 2^32; its message, of which exactly the encoded bytes are sent, goes behind those in the
-- queue, or the queue was full, and then the session is given up.
pub contact_callback-Captured :
    (bytes : List ℕ) (now : ℕ) (touches : List MtTouch) (count device_time : ℕ) (a : Agent)
    → a.connected ≡ true
    → count ≤ max_contacts
    → All IsTouch touches
    → device_time < 2 ^ 64
    → now < 2 ^ 64
    → IsQueue a.queue
    → Captured
        (take count touches)
        a
        (contact_callback bytes now (some touches) count device_time a)
unfolding contact_callback
contact_callback-Captured bytes now touches count device_time a c n h d t i =
    let few : ltb max_contacts count ≡ false = ground (arith, n) in
    let size : length (take count touches) ≤ max_contacts =
      omega (arith, length-take count touches) in
    let b : Agent = record a { captured = (a.captured + 1) % 2 ^ 64 } in
    let done =
      capture_touches-Captured bytes now device_time (take count touches) b
        (All-take IsTouch count touches h) size d t i in
    let taken =
      passes (not a.connected) b _ (ground (arith, c))
      ∙ passes (ltb max_contacts count) (record b { dropped = (a.dropped + 1) % 2 ^ 64 })
          (capture_touches bytes now device_time (take count touches) b) few in
    subst (λ a'. Captured (take count touches) a a') (sym taken) done
