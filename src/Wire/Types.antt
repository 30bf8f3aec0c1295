-- ===== src/Wire/Types.antt =====
-- protocol/TouchFrame.h: limits, message types, flags, contacts and frames.
-- A `float` is its IEEE-754 bit pattern, a number below 2 ^ 32: the codec only moves it.
use touchpad.Base.{ℕ, ◌+◌, ◌*◌, ◌^◌, ◌<◌, ◌≡◌, List, length, replicate, All}

abbrev pub wire_magic : ℕ
wire_magic = 0x4d545031

abbrev pub wire_version : ℕ
wire_version = 1

abbrev pub max_contacts : ℕ
max_contacts = 10

abbrev pub header_size : ℕ
header_size = 36

abbrev pub contact_size : ℕ
contact_size = 44

abbrev pub max_message_size : ℕ
max_message_size = header_size + max_contacts * contact_size

-- `enum TPMessageType`; C passes it as a number, which may be none of these.
abbrev pub message_hello : ℕ
message_hello = 1

abbrev pub message_frame : ℕ
message_frame = 2

abbrev pub message_reset : ℕ
message_reset = 3

-- `enum TPContactFlags` and `enum TPFrameFlags`
abbrev pub contact_in_range : ℕ
contact_in_range = 1

abbrev pub contact_tip : ℕ
contact_tip = 2

abbrev pub contact_confidence : ℕ
contact_confidence = 4

abbrev pub frame_button : ℕ
frame_button = 1

-- `TPContact`; `mtp::Contact` of the receiver has the same fields.
pub record Contact : Type 0 where
  pub identifier : ℕ
  pub state : ℕ
  pub flags : ℕ
  pub x : ℕ
  pub y : ℕ
  pub velocity_x : ℕ
  pub velocity_y : ℕ
  pub size : ℕ
  pub angle : ℕ
  pub major_axis : ℕ
  pub minor_axis : ℕ
  pub density : ℕ

-- `TPFrame`; `contacts` is the whole array of `TP_MAX_CONTACTS` entries.
pub record Frame : Type 0 where
  pub sequence : ℕ
  pub capture_time_us : ℕ
  pub device_time_us : ℕ
  pub flags : ℕ
  pub contact_count : ℕ
  pub contacts : List Contact

abbrev pub zero_contact : Contact
zero_contact = record {
  identifier = 0;
  state = 0;
  flags = 0;
  x = 0;
  y = 0;
  velocity_x = 0;
  velocity_y = 0;
  size = 0;
  angle = 0;
  major_axis = 0;
  minor_axis = 0;
  density = 0;
}

-- `memset(frame, 0, sizeof(*frame))`
abbrev pub zero_frame : Frame
zero_frame = record {
  sequence = 0;
  capture_time_us = 0;
  device_time_us = 0;
  flags = 0;
  contact_count = 0;
  contacts = replicate max_contacts zero_contact;
}

abbrev pub IsByte : ℕ → Type 0
IsByte b = b < 2 ^ 8

-- The ranges of the C types.
pub record IsContact (c : Contact) : Type 0 where
  pub identifier : c.identifier < 2 ^ 32
  pub state : c.state < 2 ^ 8
  pub flags : c.flags < 2 ^ 8
  pub x : c.x < 2 ^ 32
  pub y : c.y < 2 ^ 32
  pub velocity_x : c.velocity_x < 2 ^ 32
  pub velocity_y : c.velocity_y < 2 ^ 32
  pub size : c.size < 2 ^ 32
  pub angle : c.angle < 2 ^ 32
  pub major_axis : c.major_axis < 2 ^ 32
  pub minor_axis : c.minor_axis < 2 ^ 32
  pub density : c.density < 2 ^ 32

pub record IsFrame (f : Frame) : Type 0 where
  pub sequence : f.sequence < 2 ^ 32
  pub capture_time_us : f.capture_time_us < 2 ^ 64
  pub device_time_us : f.device_time_us < 2 ^ 64
  pub flags : f.flags < 2 ^ 16
  pub contact_count : f.contact_count < 2 ^ 16
  pub storage : length f.contacts ≡ max_contacts
  pub contacts : All IsContact f.contacts
