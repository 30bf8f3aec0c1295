-- ===== src/Agent/Capture.antt =====
-- mac/Agent/main.c: `flags_for_state`, `enqueue_frame_locked`, `button_callback` and `contact_callback`.
-- The time of the monotonic clock is the argument `now`; `device_time` is the timestamp of the
-- framework, a double, in microseconds.
use touchpad.Base.{
  ℕ, ◌+◌, ◌-◌, ◌%◌, ◌^◌, Bool, true, false, not, ◌&&◌, ◌||◌, ltb, leb, ◌==◌, ◌!=◌, if◌then◌else◌,
  Option, none, some, List, [], ◌∷◌, ◌++◌, take, length, replicate, bit_and, bit_or,
}
use touchpad.Wire.Types.{
  Contact, Frame, zero_contact, zero_frame, max_contacts, max_message_size, message_frame,
  frame_button, contact_in_range, contact_tip, contact_confidence,
}
use touchpad.Wire.Encode.{encode_message}
use touchpad.Agent.Types.{WireMessage, Agent}
use touchpad.Agent.Queue.{queue_clear, queue_push}

-- `state` is the pattern of an `int32_t`; a negative one is large.
unfoldable pub flags_for_state : ℕ → ℕ
flags_for_state state =
    let flags = contact_confidence in
    let flags' = if leb 1 state && leb state 6 then bit_or flags contact_in_range else flags in
    if state == 3 || state == 4 then bit_or flags' contact_tip else flags'

abbrev pub effective_button_down : Agent → Bool
effective_button_down a = a.pressure_button_down || a.physical_button_down

-- `a < b` on floats: not with a NaN, and on equal signs by the magnitudes.
abbrev pub magnitude : ℕ → ℕ
magnitude bits = bits % 2 ^ 31

abbrev pub is_nan : ℕ → Bool
is_nan bits = ltb 0x7f80_0000 (magnitude bits)

abbrev pub is_negative : ℕ → Bool
is_negative bits = leb (2 ^ 31) bits

unfoldable pub float_lt : ℕ → ℕ → Bool
float_lt a b =
    not (is_nan a || is_nan b)
    && (if is_negative a
        then if is_negative b
          then ltb (magnitude b) (magnitude a)
          else ltb 0 (magnitude a + magnitude b)
        else not (is_negative b) && ltb (magnitude a) (magnitude b))

-- `a >= b`
unfoldable pub float_ge : ℕ → ℕ → Bool
unfolding float_lt
float_ge a b = not (is_nan a || is_nan b) && not (float_lt a b)

-- The fields of `MTTouch` that the callback reads; `state` and `identifier` are patterns.
pub record MtTouch : Type 0 where
  pub identifier : ℕ
  pub state : ℕ
  pub position_x : ℕ
  pub position_y : ℕ
  pub velocity_x : ℕ
  pub velocity_y : ℕ
  pub size : ℕ
  pub pressure : ℕ
  pub angle : ℕ
  pub major_axis : ℕ
  pub minor_axis : ℕ
  pub density : ℕ

-- `tip_count` and `maximum_pressure`
unfoldable pub tip_pressure : List MtTouch → ℕ × ℕ → ℕ × ℕ
unfolding flags_for_state float_lt
tip_pressure [] r = r
tip_pressure (source ∷ touches) r = tip_pressure touches (
    if bit_and (flags_for_state source.state) contact_tip != 0
    then (r.0 + 1, if float_lt r.1 source.pressure then source.pressure else r.1)
    else r)

-- The click by pressure, from the number of tips and the greatest pressure.
unfoldable pub press_button : ℕ → ℕ → Agent → Agent
unfolding float_lt float_ge
press_button tips pressure a =
    if tips != 1
    then record a {
      pressure_button_events =
          if a.pressure_button_down
          then (a.pressure_button_events + 1) % 2 ^ 64
          else a.pressure_button_events;
      pressure_button_down = false;
      pressure_press_frames = 0;
    }
    else if not a.pressure_button_down && float_lt 0 a.pressure_threshold
    then if float_ge pressure a.pressure_threshold
      then if leb 3 ((a.pressure_press_frames + 1) % 2 ^ 32)
        then record a {
          pressure_press_frames = (a.pressure_press_frames + 1) % 2 ^ 32;
          pressure_button_down = true;
          pressure_button_events = (a.pressure_button_events + 1) % 2 ^ 64;
        }
        else record a { pressure_press_frames = (a.pressure_press_frames + 1) % 2 ^ 32 }
      else record a { pressure_press_frames = 0 }
    else a

unfoldable pub touch_contact : MtTouch → Contact
unfolding flags_for_state
touch_contact source = record {
  identifier = source.identifier;
  state = source.state % 2 ^ 8;
  flags = flags_for_state source.state;
  x = source.position_x;
  y = source.position_y;
  velocity_x = source.velocity_x;
  velocity_y = source.velocity_y;
  size = source.size;
  angle = source.angle;
  major_axis = source.major_axis;
  minor_axis = source.minor_axis;
  density = source.density;
}

unfoldable pub touch_contacts : List MtTouch → List Contact
unfolding touch_contact
touch_contacts [] = []
touch_contacts (source ∷ touches) = touch_contact source ∷ touch_contacts touches

-- Where the frame is not sent: the session is given up.
unfoldable pub request_reconnect : Agent → Agent
unfolding queue_clear
request_reconnect a = record a {
  connected = false;
  reconnect_requested = true;
  queue = queue_clear a.queue;
  dropped = (a.dropped + 1) % 2 ^ 64;
}

unfoldable pub enqueue_message : WireMessage → Agent → Agent
unfolding request_reconnect queue_push
enqueue_message message a =
    if message.length != 0 && (queue_push message a.queue).0
    then record a { queue = (queue_push message a.queue).1 }
    else request_reconnect a

-- What the encoder made of a message's bytes; the destination is not null.
abbrev pub encoded : ℕ × Option (List ℕ) → WireMessage
encoded (n, none) = record { length = n; bytes = [] }
encoded (n, some bytes) = record { length = n; bytes = bytes }

-- The frame of the touches, when the button is as in `a`.
unfoldable pub touch_frame : ℕ → List MtTouch → Agent → Frame
unfolding touch_contacts
touch_frame device_time touches a = record zero_frame {
  device_time_us = device_time;
  contact_count = length touches % 2 ^ 16;
  flags = if effective_button_down a then frame_button else 0;
  contacts = touch_contacts touches ++ replicate (max_contacts - length touches) zero_contact;
}

-- `button_callback`, up to its test of the connection.
unfoldable pub count_button : ℕ → ℕ → Agent → Agent
count_button pressed released a =
    let down = if pressed != 0 then true else a.physical_button_down in
    record a {
      physical_button_down = if released != 0 then false else down;
      button_events = (a.button_events + 1) % 2 ^ 64;
    }

-- The bytes of a message on the stack, before they are written, are the argument `bytes`.
module _ (bytes : List ℕ) (now : ℕ) where
  unfoldable pub enqueue_frame_locked : Frame → Agent → Agent
  unfolding enqueue_message
  enqueue_frame_locked frame a =
      let sequence = (a.sequence + 1) % 2 ^ 32 in
      enqueue_message
        (encoded (
          encode_message message_frame
            (some (record frame { sequence = sequence; capture_time_us = now })) (some bytes)
            max_message_size))
        (record a { sequence = sequence })

  -- `button_callback`, under its mutex.
  unfoldable pub click : Agent → Agent
  unfolding enqueue_frame_locked
  click a =
      let frame : Frame = record a.latest_frame {
        flags = if effective_button_down a then frame_button else 0;
        device_time_us = 0;
      } in
      enqueue_frame_locked frame (record a { latest_frame = frame })

  unfoldable pub button_callback : ℕ → ℕ → Agent → Agent
  unfolding count_button click
  button_callback pressed released a =
      let a' = count_button pressed released a in if not a'.connected then a' else click a'

  unfoldable pub capture_touches : ℕ → List MtTouch → Agent → Agent
  unfolding enqueue_frame_locked touch_frame press_button tip_pressure
  capture_touches device_time touches a =
      let (tips, pressure) = tip_pressure touches (0, 0) in
      let a' = press_button tips pressure a in
      let frame = touch_frame device_time touches a' in
      enqueue_frame_locked frame (record a' { latest_frame = frame })

  -- `touches` is `none` for a null pointer, and otherwise the array, of which the callback reads
  -- `touch_count` elements.
  unfoldable pub contact_callback : Option (List MtTouch) → ℕ → ℕ → Agent → Agent
  unfolding capture_touches
  contact_callback none touch_count device_time a =
      let a' : Agent = record a { captured = (a.captured + 1) % 2 ^ 64 } in
      if not a.connected
      then a'
      else if ltb 0 touch_count
      then record a' { dropped = (a.dropped + 1) % 2 ^ 64 }
      else capture_touches device_time [] a'
  contact_callback (some touches) touch_count device_time a =
      let a' : Agent = record a { captured = (a.captured + 1) % 2 ^ 64 } in
      if not a.connected
      then a'
      else if ltb max_contacts touch_count
      then record a' { dropped = (a.dropped + 1) % 2 ^ 64 }
      else capture_touches device_time (take touch_count touches) a'
