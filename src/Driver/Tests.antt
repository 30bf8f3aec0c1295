-- ===== src/Driver/Tests.antt =====
-- windows/driver/Driver.c: the theorems about the driver on concrete requests.
use touchpad.Base.{
  ℕ, ◌≤◌, ◌<◌, ◌≡◌, ◌≢◌, refl, inl, All, true, arith, List, [], ◌∷◌, some, none, replicate, length,
  ◌⊎◌, All-replicate,
}
use touchpad.Ioctl.{
  IoctlFrame, IoctlStatus, IsSubmittable, IsSubmittableContact, zero_ioctl_frame,
  zero_ioctl_contact, ioctl_abi_version,
}
use touchpad.Driver.Types.{DeviceContext, PtpReport, status_success, sizeof_ptp_report}
use touchpad.Driver.Submit.{submit_ioctl_frame}
use touchpad.Driver.Control.{
  Request, Platform, evt_io_device_control, evt_device_add, ioctl_mtp_submit_frame,
  ioctl_mtp_query_status, sizeof_ioctl_frame,
}
use touchpad.Driver.Features.{get_feature, set_feature}
use touchpad.Driver.Accepts.{Refused, IsSubmittable-InRange}
use touchpad.Driver.Cases.{IsKnownFrame, Delivered, submit_ioctl_frame-Delivered}
use touchpad.Driver.Descriptor.{report_descriptor, certification_blob}
use touchpad.Driver.Hid.{host_reads}
use touchpad.Driver.Layout.{report_bytes, InLogicalRange}
use touchpad.Driver.Reads.{frame_readings, submit_ioctl_frame-host_reads}
use touchpad.Driver.Declared.{
  Answered, Rejected, Stored, Unstored, declared_length, packet_of, get_feature-declared,
  set_feature-declared,
}
use touchpad.Driver.Requests.{IsConsistent, query_after_submit, evt_device_add-IsConsistent}

abbrev idle : DeviceContext
idle = record {
  vhf_handle = true;
  last_scan_time = 0;
  submit_count = 0;
  last_submit_status = 0;
  last_report_size = 0;
  last_active_contact_count = 0;
  input_mode = 0;
  function_switch = 0;
  get_feature_count = 0;
  set_feature_count = 0;
}

abbrev accepting : PtpReport → ℕ
accepting r = status_success

-- A report with one contact.
abbrev one_contact : IoctlFrame
one_contact = record zero_ioctl_frame {
  abi_version = ioctl_abi_version;
  sequence = 1;
  scan_time_100us = 9;
  active_contact_count = 1;
  report_contact_count = 1;
  contacts =
      record { slot = 2; flags = 7; x = 100; y = 200; reserved = 0 }
      ∷ replicate 4 zero_ioctl_contact;
}

one_contact-IsSubmittable : IsSubmittable one_contact
one_contact-IsSubmittable = record {
  abi = refl;
  flags = omega arith;
  active = omega arith;
  reported = omega arith;
  storage = refl;
  contacts = (
    record {
      slot = omega arith;
      flags = omega arith;
      x = omega arith;
      y = omega arith;
      reserved = refl;
    },
    All-replicate IsSubmittableContact 4 zero_ioctl_contact (record {
      slot = omega arith;
      flags = omega arith;
      x = omega arith;
      y = omega arith;
      reserved = refl;
    }),
  );
}

submit_ioctl_frame-Delivered_example :
    (IsKnownFrame one_contact
      × Delivered accepting idle one_contact (submit_ioctl_frame accepting idle one_contact))
    ⊎ ((IsKnownFrame one_contact → ⊥)
        × Refused idle (submit_ioctl_frame accepting idle one_contact))
submit_ioctl_frame-Delivered_example = submit_ioctl_frame-Delivered accepting idle one_contact

abbrev request : Request
request = record { output_status = 0; input_status = 0; input = one_contact }

query_after_submit_example :
    let submit =
      evt_io_device_control accepting ioctl_mtp_submit_frame sizeof_ioctl_frame request idle in
    let answer = evt_io_device_control accepting ioctl_mtp_query_status 0 request submit.context in
    (report : PtpReport) × (status : IoctlStatus) × (submit.submitted ≡ some report)
    × (submit.status ≡ 0)
    × (answer.output ≡ some status)
    × (answer.submitted ≡ none)
    × (status.submit_count ≡ 1)
    × (status.last_submit_status ≡ 0)
query_after_submit_example =
    query_after_submit accepting idle request request 0 one_contact-IsSubmittable refl refl

abbrev no_vhf_start : Platform
no_vhf_start = record {
  device_create = 0;
  symbolic_link = 0;
  lock_create = 0;
  queue_create = 0;
  vhf_create = 0;
  vhf_start = 0xC000_0001;
}

evt_device_add-IsConsistent_example : IsConsistent true (evt_device_add no_vhf_start)
evt_device_add-IsConsistent_example = evt_device_add-IsConsistent no_vhf_start

abbrev blob : List ℕ
blob = replicate 256 0xfc

submit_ioctl_frame-host_reads_example :
    (report : PtpReport) × ((submit_ioctl_frame accepting idle one_contact).submitted ≡ some report)
    × (length (report_bytes report) ≡ sizeof_ptp_report)
    × (host_reads report_descriptor (report_bytes report) ≡ some (frame_readings idle one_contact))
    × All InLogicalRange (frame_readings idle one_contact)
submit_ioctl_frame-host_reads_example =
    submit_ioctl_frame-host_reads accepting idle one_contact
      (IsSubmittable-InRange one_contact one_contact-IsSubmittable) (omega arith)

abbrev four_bytes : List ℕ
four_bytes = 1 ∷ 2 ∷ 3 ∷ 4 ∷ []

get_feature-declared_example :
    let r = get_feature certification_blob (some (packet_of four_bytes 7)) idle in
    (declared_length 7 ≤ length four_bytes → Answered four_bytes 7 r)
    × (length four_bytes < declared_length 7 → Rejected four_bytes r)
get_feature-declared_example = get_feature-declared four_bytes 7 idle (inl refl)

set_feature-declared_example :
    let r = set_feature (some (packet_of four_bytes 4)) idle in
    ((◌≡◌ {A = ℕ} 4 4 ⊎ ◌≡◌ {A = ℕ} 4 6)
      × (declared_length 4 ≤ length four_bytes)
      × Stored four_bytes 4 idle r)
    ⊎ (((◌≢◌ {A = ℕ} 4 4 × ◌≢◌ {A = ℕ} 4 6) ⊎ (length four_bytes < declared_length 4))
        × Unstored four_bytes idle r)
set_feature-declared_example = set_feature-declared four_bytes 4 idle
