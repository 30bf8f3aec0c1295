-- ===== src/Driver/Submit.antt =====
-- windows/driver/Driver.c: `SubmitIoctlFrame`.
use touchpad.Base.{
  ℕ, zero, suc, ◌+◌, ◌*◌, ◌%◌, ◌^◌, Bool, ltb, leb, ◌!=◌, ◌||◌, if◌then◌else◌, Option, none, some,
  List, set, get_or, bit_and, bit_or,
}
use touchpad.Ioctl.{
  IoctlContact, IoctlFrame, zero_ioctl_contact, ioctl_abi_version, hid_max_contacts,
  coordinate_logical_max, ioctl_contact_tip, ioctl_contact_confidence, ioctl_frame_button,
}
use touchpad.Driver.Types.{
  DeviceContext, PtpContact, PtpReport, zero_report, report_id_input, sizeof_ptp_report,
  status_invalid_parameter,
}

-- The outcome of a submission: the status, the context as the call leaves it, and the report that
-- went to `VhfReadReportSubmit`.
pub record Submission : Type 0 where
  pub status : ℕ
  pub context : DeviceContext
  pub submitted : Option PtpReport

-- `source->x > MTP_COORDINATE_LOGICAL_MAX ? MTP_COORDINATE_LOGICAL_MAX : source->x`
abbrev pub clamp_coordinate : ℕ → ℕ
clamp_coordinate v = if ltb coordinate_logical_max v then coordinate_logical_max else v

-- The test at the head of the loop's body; the mask of unknown flags is 0xf8 on eight bits.
abbrev pub bad_contact : IoctlContact → Bool
bad_contact c = leb hid_max_contacts c.slot || (c.reserved != 0 || bit_and c.flags 0xf8 != 0)

unfoldable pub ptp_contact : IoctlContact → PtpContact
ptp_contact c =
    let confidence : ℕ = if bit_and c.flags ioctl_contact_confidence != 0 then 1 else 0 in
    let tip : ℕ = if bit_and c.flags ioctl_contact_tip != 0 then 1 else 0 in
    record {
      flags = bit_or confidence (tip * 2 % 2 ^ 8);
      contact_id = c.slot;
      x = clamp_coordinate c.x;
      y = clamp_coordinate c.y;
    }

-- `n` rounds from `index` on; `none` is the early return.
unfoldable pub fill_contacts :
    ℕ → ℕ → List IoctlContact → List PtpContact → Option (List PtpContact)
fill_contacts zero index contacts report = some report
fill_contacts (suc n) index contacts report =
    let source = get_or contacts index zero_ioctl_contact in
    let rest = fill_contacts n (index + 1) contacts (set report source.slot (ptp_contact source)) in
    if bad_contact source then none else rest

-- The first test; `~(MTP_IOCTL_FRAME_RESET | MTP_IOCTL_FRAME_BUTTON)` is 0xfffffffc.
abbrev pub bad_frame : IoctlFrame → Bool
bad_frame input =
    input.abi_version != ioctl_abi_version
    || (bit_and input.flags 0xffff_fffc != 0
        || (ltb hid_max_contacts input.active_contact_count
            || ltb hid_max_contacts input.report_contact_count))

-- `input->scan_time_100us != 0 ? input->scan_time_100us : ++context->LastScanTime`, as the scan time
-- and the context's counter after it.
unfoldable pub scan_time_of : ℕ → ℕ → ℕ × ℕ
scan_time_of input last =
    if input != 0 then (input, last) else ((last + 1) % 2 ^ 16, (last + 1) % 2 ^ 16)

-- `vhf_submit` is `VhfReadReportSubmit` on the context's handle: the status for a report.
module _ (vhf_submit : PtpReport → ℕ) where
  -- Behind the loop.
  unfoldable pub submit_report : IoctlFrame → PtpReport → DeviceContext → Submission
  submit_report input report context =
      let status = vhf_submit report in
      record {
        status = status;
        context = record context {
          last_report_size = sizeof_ptp_report % 2 ^ 16;
          last_active_contact_count = input.active_contact_count;
          last_submit_status = status;
          submit_count = (context.submit_count + 1) % 2 ^ 32;
        };
        submitted = some report;
      }

  unfoldable pub submit_filled :
      IoctlFrame → PtpReport → DeviceContext → Option (List PtpContact) → Submission
  unfolding submit_report
  submit_filled input report context none = record {
    status = status_invalid_parameter;
    context = context;
    submitted = none;
  }
  submit_filled input report context (some contacts) =
      submit_report input (record report { contacts = contacts }) context

  unfoldable pub submit_ioctl_frame : DeviceContext → IoctlFrame → Submission
  unfolding submit_filled scan_time_of
  submit_ioctl_frame context input =
      if bad_frame input
      then record { status = status_invalid_parameter; context = context; submitted = none }
      else let (scan_time, last) = scan_time_of input.scan_time_100us context.last_scan_time in
        let report : PtpReport = record zero_report {
          report_id = report_id_input;
          scan_time = scan_time;
          contact_count = input.active_contact_count;
          button = if bit_and input.flags ioctl_frame_button != 0 then 1 else 0;
        } in
        submit_filled input report (record context { last_scan_time = last })
          (fill_contacts input.report_contact_count 0 input.contacts report.contacts)
