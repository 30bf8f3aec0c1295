-- ===== src/Driver/Types.antt =====
-- windows/driver/Driver.h: the device context and the Precision Touchpad report. An NTSTATUS is its
-- 32-bit pattern.
use touchpad.Base.{ℕ, ◌+◌, ◌*◌, ◌^◌, Bool, List, ltb, replicate}
use touchpad.Ioctl.{hid_max_contacts}

abbrev pub report_id_input : ℕ
report_id_input = 0x05

abbrev pub report_id_mode : ℕ
report_id_mode = 0x04

abbrev pub report_id_function : ℕ
report_id_function = 0x06

abbrev pub report_id_caps : ℕ
report_id_caps = 0x07

abbrev pub report_id_certification : ℕ
report_id_certification = 0x08

-- The status codes of ntstatus.h that the driver returns.
abbrev pub status_success : ℕ
status_success = 0

abbrev pub status_invalid_parameter : ℕ
status_invalid_parameter = 0xC000_000D

abbrev pub status_invalid_device_request : ℕ
status_invalid_device_request = 0xC000_0010

abbrev pub status_not_found : ℕ
status_not_found = 0xC000_0225

abbrev pub status_device_configuration_error : ℕ
status_device_configuration_error = 0xC000_0182

abbrev pub status_device_not_ready : ℕ
status_device_not_ready = 0xC000_00A3

-- `NT_SUCCESS`: not negative as a signed number
abbrev pub nt_success : ℕ → Bool
nt_success status = ltb status (2 ^ 31)

-- `MTP_PTP_CONTACT`
pub record PtpContact : Type 0 where
  pub flags : ℕ
  pub contact_id : ℕ
  pub x : ℕ
  pub y : ℕ

-- `MTP_PTP_REPORT`; `contacts` is the whole array of `MTP_HID_MAX_CONTACTS` entries.
pub record PtpReport : Type 0 where
  pub report_id : ℕ
  pub contacts : List PtpContact
  pub scan_time : ℕ
  pub contact_count : ℕ
  pub button : ℕ

abbrev pub zero_ptp_contact : PtpContact
zero_ptp_contact = record { flags = 0; contact_id = 0; x = 0; y = 0 }

-- `RtlZeroMemory(&report, sizeof(report))`
abbrev pub zero_report : PtpReport
zero_report = record {
  report_id = 0;
  contacts = replicate hid_max_contacts zero_ptp_contact;
  scan_time = 0;
  contact_count = 0;
  button = 0;
}

-- `sizeof(MTP_PTP_CONTACT)` and `sizeof(MTP_PTP_REPORT)`, which are packed
abbrev pub sizeof_ptp_contact : ℕ
sizeof_ptp_contact = 1 + 4 + 2 + 2

abbrev pub sizeof_ptp_report : ℕ
sizeof_ptp_report = 1 + hid_max_contacts * sizeof_ptp_contact + 2 + 1 + 1

-- `DEVICE_CONTEXT`; `vhf_handle` says whether the handle is not null. The wait lock has no state of
-- its own here: the device queue dispatches one request at a time.
pub record DeviceContext : Type 0 where
  pub vhf_handle : Bool
  pub last_scan_time : ℕ
  pub submit_count : ℕ
  pub last_submit_status : ℕ
  pub last_report_size : ℕ
  pub last_active_contact_count : ℕ
  pub input_mode : ℕ
  pub function_switch : ℕ
  pub get_feature_count : ℕ
  pub set_feature_count : ℕ
