-- ===== src/Samples.antt =====
-- Concrete frames, messages and sessions for the tests of the other modules.
use touchpad.Base.{
  ℕ, ◌≡◌, refl, Bool, true, ◌&&◌, ltb, arith, List, [], ◌∷◌, some, none, replicate, All,
  All-replicate, ◌^◌,
}
use touchpad.Wire.Types.{
  Contact, Frame, IsContact, IsFrame, IsByte, zero_contact, zero_frame, max_contacts,
}
use touchpad.Wire.Encode.{put_contact, put_contacts, put_header, message_bytes}
use touchpad.Wire.Bytes.{put_u16, put_u32, put_u64, put_f32}
use touchpad.Wire.RoundTrip.{IsSendable, sent_bytes}
use touchpad.Mtp1.Types.{Message, hello, frame}
use touchpad.Mtp1.Message.{is_finite}
use touchpad.Mtp1.Valid.{code, ValidContact, ValidMessage}
use touchpad.Mtp1.FromMac.{IsReceivable, message_of}
use touchpad.Session.Types.{TouchSession, new_session}
use touchpad.Session.Invariant.{IsSession}
use touchpad.Session.Slots.{find_slot, slot_used}

-- A finger in the middle of the surface, in range, touching, and surely one.
abbrev pub finger : Contact
finger = record zero_contact {
  identifier = 7;
  state = 4;
  flags = 7;
  x = 0x3f00_0000;
  y = 0x3f00_0000;
}

abbrev pub second_finger : Contact
second_finger = record finger { identifier = 9 }

-- The frame with the first finger, and the control frame in front of it.
abbrev pub one_finger : Frame
one_finger = record zero_frame {
  sequence = 1;
  contact_count = 1;
  contacts = finger ∷ replicate 9 zero_contact;
}

zero_contact-IsContact : IsContact zero_contact
zero_contact-IsContact = record {
  identifier = omega arith;
  state = omega arith;
  flags = omega arith;
  x = omega arith;
  y = omega arith;
  velocity_x = omega arith;
  velocity_y = omega arith;
  size = omega arith;
  angle = omega arith;
  major_axis = omega arith;
  minor_axis = omega arith;
  density = omega arith;
}

finger-IsContact : IsContact finger
finger-IsContact = record {
  identifier = omega arith;
  state = omega arith;
  flags = omega arith;
  x = omega arith;
  y = omega arith;
  velocity_x = omega arith;
  velocity_y = omega arith;
  size = omega arith;
  angle = omega arith;
  major_axis = omega arith;
  minor_axis = omega arith;
  density = omega arith;
}

finger-ValidContact : ValidContact finger
unfolding is_finite
finger-ValidContact = record {
  flags = omega arith;
  x = refl;
  y = refl;
  velocity_x = refl;
  velocity_y = refl;
  size = refl;
  angle = refl;
  major_axis = refl;
  minor_axis = refl;
  density = refl;
}

pub one_finger-IsFrame : IsFrame one_finger
one_finger-IsFrame = record {
  sequence = omega arith;
  capture_time_us = omega arith;
  device_time_us = omega arith;
  flags = omega arith;
  contact_count = omega arith;
  storage = refl;
  contacts = (finger-IsContact, All-replicate IsContact 9 zero_contact zero_contact-IsContact);
}

pub one_finger-IsSendable : IsSendable (code frame) one_finger
one_finger-IsSendable = record {
  frame = one_finger-IsFrame;
  at_least = omega arith;
  at_most = omega arith;
  count = omega arith;
  flags = omega arith;
}

pub one_finger-IsReceivable : IsReceivable frame one_finger
one_finger-IsReceivable = record {
  sendable = one_finger-IsSendable;
  contacts = (finger-ValidContact, tt);
  fresh = (refl, tt);
}

pub greeting-IsReceivable : IsReceivable hello zero_frame
greeting-IsReceivable = record {
  sendable = record {
    frame = record {
      sequence = omega arith;
      capture_time_us = omega arith;
      device_time_us = omega arith;
      flags = omega arith;
      contact_count = omega arith;
      storage = refl;
      contacts = All-replicate IsContact max_contacts zero_contact zero_contact-IsContact;
    };
    at_least = omega arith;
    at_most = omega arith;
    count = omega arith;
    flags = omega arith;
  };
  contacts = tt;
  fresh = tt;
}

-- A test for bytes.
abbrev pub all_bytes : List ℕ → Bool
all_bytes [] = true
all_bytes (b ∷ bs) = let rest = all_bytes bs in ltb b (2 ^ 8) && rest

pub all_bytes-IsByte : (bs : List ℕ) → all_bytes bs ≡ true → All IsByte bs
all_bytes-IsByte [] h = tt
all_bytes-IsByte (b ∷ bs) h = (ground (arith, h), all_bytes-IsByte bs (ground (arith, h)))

abbrev pub finger_bytes : List ℕ
finger_bytes = sent_bytes (code frame) one_finger

pub finger_bytes-IsByte : All IsByte finger_bytes
unfolding put_contact put_contacts put_header message_bytes put_u16 put_u32 put_u64 put_f32
finger_bytes-IsByte = all_bytes-IsByte finger_bytes refl

abbrev pub greeting_bytes : List ℕ
greeting_bytes = sent_bytes (code hello) zero_frame

pub greeting_bytes-IsByte : All IsByte greeting_bytes
unfolding put_contact put_contacts put_header message_bytes put_u16 put_u32 put_u64 put_f32
greeting_bytes-IsByte = all_bytes-IsByte greeting_bytes refl

-- The message of the greeting, and one of two fingers.
abbrev pub greeting : Message
greeting = message_of hello zero_frame

pub greeting-ValidMessage : ValidMessage greeting
greeting-ValidMessage = record {
  flags = omega arith;
  count = omega arith;
  contacts = tt;
  fresh = tt;
  control = λ h. (refl, refl);
}

abbrev pub two_fingers : Message
two_fingers = record {
  type = frame;
  sequence = 6;
  capture_time_us = 1000;
  device_time_us = 0;
  flags = 0;
  contacts = finger ∷ second_finger ∷ [];
}

second_finger-ValidContact : ValidContact second_finger
unfolding is_finite
second_finger-ValidContact = record {
  flags = omega arith;
  x = refl;
  y = refl;
  velocity_x = refl;
  velocity_y = refl;
  size = refl;
  angle = refl;
  major_axis = refl;
  minor_axis = refl;
  density = refl;
}

pub two_fingers-ValidMessage : ValidMessage two_fingers
two_fingers-ValidMessage = record {
  flags = omega arith;
  count = omega arith;
  contacts = (finger-ValidContact, (second_finger-ValidContact, tt));
  fresh = (refl, (refl, tt));
  control = λ h. absurd (cc);
}

-- A session in which the first finger has slot 3, and one in which five others touch.
abbrev pub touched : TouchSession
touched = record new_session {
  hello_seen = true;
  reset_seen = true;
  sequence_seen = true;
  previous_sequence = 5;
  slots = (7, 3) ∷ [];
  previous_contacts = none ∷ none ∷ none ∷ some finger ∷ none ∷ [];
}

pub touched-IsSession : IsSession touched
unfolding find_slot slot_used
touched-IsSession = record {
  slots = (omega arith, refl, refl, tt);
  size = omega arith;
  previous = record { size = refl; flags = (tt, (tt, (tt, (omega arith, (tt, tt))))) };
}

abbrev pub crowded : TouchSession
crowded = record touched { slots = (10, 0) ∷ (11, 1) ∷ (12, 2) ∷ (13, 3) ∷ (14, 4) ∷ [] }
