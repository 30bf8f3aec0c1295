-- ===== src/Ioctl.antt =====
-- windows/shared/TouchpadIoctl.h: the structures that the receiver and the driver share.
use touchpad.Base.{ℕ, ◌≡◌, ◌<◌, ◌≤◌, List, replicate, length, All}

abbrev pub ioctl_abi_version : ℕ
ioctl_abi_version = 2

abbrev pub hid_max_contacts : ℕ
hid_max_contacts = 5

abbrev pub coordinate_logical_max : ℕ
coordinate_logical_max = 32767

abbrev pub ioctl_contact_in_range : ℕ
ioctl_contact_in_range = 0x01

abbrev pub ioctl_contact_tip : ℕ
ioctl_contact_tip = 0x02

abbrev pub ioctl_contact_confidence : ℕ
ioctl_contact_confidence = 0x04

abbrev pub ioctl_frame_reset : ℕ
ioctl_frame_reset = 1

abbrev pub ioctl_frame_button : ℕ
ioctl_frame_button = 2

-- `MTP_IOCTL_CONTACT`
pub record IoctlContact : Type 0 where
  pub slot : ℕ
  pub flags : ℕ
  pub x : ℕ
  pub y : ℕ
  pub reserved : ℕ

-- `MTP_IOCTL_FRAME`; `contacts` is the whole array of `MTP_HID_MAX_CONTACTS` entries.
pub record IoctlFrame : Type 0 where
  pub abi_version : ℕ
  pub sequence : ℕ
  pub flags : ℕ
  pub scan_time_100us : ℕ
  pub active_contact_count : ℕ
  pub report_contact_count : ℕ
  pub contacts : List IoctlContact

-- `MTP_IOCTL_STATUS`, without its reserved bytes
pub record IoctlStatus : Type 0 where
  pub abi_version : ℕ
  pub submit_count : ℕ
  pub last_submit_status : ℕ
  pub last_report_size : ℕ
  pub last_active_contact_count : ℕ
  pub input_mode : ℕ
  pub function_switch : ℕ
  pub get_feature_count : ℕ
  pub set_feature_count : ℕ

abbrev pub zero_ioctl_contact : IoctlContact
zero_ioctl_contact = record { slot = 0; flags = 0; x = 0; y = 0; reserved = 0 }

-- `MTP_IOCTL_FRAME output{};`
abbrev pub zero_ioctl_frame : IoctlFrame
zero_ioctl_frame = record {
  abi_version = 0;
  sequence = 0;
  flags = 0;
  scan_time_100us = 0;
  active_contact_count = 0;
  report_contact_count = 0;
  contacts = replicate hid_max_contacts zero_ioctl_contact;
}

-- A report entry that the driver takes as it is: a slot in range, known flags, coordinates in range.
pub record IsSubmittableContact (c : IoctlContact) : Type 0 where
  pub slot : c.slot < hid_max_contacts
  pub flags : c.flags < 8
  pub x : c.x ≤ coordinate_logical_max
  pub y : c.y ≤ coordinate_logical_max
  pub reserved : c.reserved ≡ 0

-- A frame that the driver submits as it is.
pub record IsSubmittable (f : IoctlFrame) : Type 0 where
  pub abi : f.abi_version ≡ ioctl_abi_version
  pub flags : f.flags < 4
  pub active : f.active_contact_count ≤ hid_max_contacts
  pub reported : f.report_contact_count ≤ hid_max_contacts
  pub storage : length f.contacts ≡ hid_max_contacts
  pub contacts : All IsSubmittableContact f.contacts
