-- ===== src/Driver/Cases.antt =====
-- windows/driver/Driver.c: what `SubmitIoctlFrame` takes and what it makes of it, said without its tests.
use touchpad.Base.{
  subst, ℕ, ◌+◌, ◌*◌, ◌/◌, ◌%◌, ◌^◌, ◌≤◌, ◌<◌, ◌≡◌, ◌≢◌, ◌∙◌, sym, refl, ◌⊎◌, inl, inr, arith, ◌!=◌,
  some, get_or, length, bit_and, Bool-cases,
}
use touchpad.Base.{bit_and_step, and_low_mask}
use touchpad.Ioctl.{IoctlFrame, hid_max_contacts, ioctl_abi_version}
use touchpad.Driver.Types.{DeviceContext, PtpReport, zero_ptp_contact, report_id_input}
use touchpad.Driver.Submit.{Submission, scan_time_of, submit_ioctl_frame}
use touchpad.Driver.Accepts.{InRange, Refused, Submitted, submit_ioctl_frame-cases}
use touchpad.Driver.Entries.{
  IsKnownContact, contact_at, ShowsLast, and_2, entries_of-ShowsLast, entries_known, entries_pass,
}

-- A frame of this version, with no flag but the two, counts up to five, and known contacts as far as they
-- are counted.
pub record IsKnownFrame (f : IoctlFrame) : Type 0 where
  pub version : f.abi_version ≡ ioctl_abi_version
  pub flags : f.flags % 2 ^ 32 < 4
  pub active : f.active_contact_count ≤ hid_max_contacts
  pub reported : f.report_contact_count ≤ hid_max_contacts
  pub contacts : (i : ℕ) → i < f.report_contact_count → IsKnownContact (contact_at f i)

-- The scan time of the frame, or one more than the last counted one where the frame has none.
abbrev pub ScanTime : ℕ → ℕ → ℕ → Type 0
ScanTime scan_time last t =
    ((scan_time ≢ 0) × (t ≡ scan_time)) ⊎ ((scan_time ≡ 0) × (t ≡ (last + 1) % 2 ^ 16))

-- A submission of the report.
pub record Delivered (vhf_submit : PtpReport → ℕ) (context : DeviceContext) (f : IoctlFrame)
    (s : Submission) : Type 0 where
  pub report : PtpReport
  pub submitted : s.submitted ≡ some report
  pub status : s.status ≡ vhf_submit report
  pub report_id : report.report_id ≡ report_id_input
  pub size : length report.contacts ≡ hid_max_contacts
  pub contacts :
      (k : ℕ)
      → k < hid_max_contacts
      → ShowsLast k
          (contact_at f)
          0
          f.report_contact_count
          zero_ptp_contact
          (get_or report.contacts k zero_ptp_contact)
  pub contact_count : report.contact_count ≡ f.active_contact_count
  pub button : report.button ≡ f.flags / 2 % 2
  pub scan_time : ScanTime f.scan_time_100us context.last_scan_time report.scan_time
  pub submit_count : s.context.submit_count ≡ (context.submit_count + 1) % 2 ^ 32
  pub last_submit_status : s.context.last_submit_status ≡ s.status

and_frame : (v : ℕ) → bit_and v 0xffff_fffc ≡ v / 4 % 2 ^ 30 * 4
and_frame v = omega (
  arith,
  bit_and_step v 0xffff_fffc,
  bit_and_step (v / 2) 0x7fff_fffe,
  and_low_mask 30 (v / 2 / 2),
)

InRange-IsKnownFrame : (f : IoctlFrame) → InRange f → IsKnownFrame f
InRange-IsKnownFrame f (good, h) = record {
  version = ground (arith, good);
  flags = ground (arith, good, and_frame f.flags);
  active = ground (arith, good);
  reported = ground (arith, good);
  contacts =
      λ i below. entries_known f f.report_contact_count 0 h i (omega arith) (omega (arith, below));
}

IsKnownFrame-InRange : (f : IoctlFrame) → IsKnownFrame f → InRange f
IsKnownFrame-InRange f h = (
  ground (arith, h.version, h.flags, h.active, h.reported, and_frame f.flags),
  entries_pass f f.report_contact_count 0 (λ j from below. h.contacts j (omega (arith, below))),
)

scan_time_of-ScanTime : (n last : ℕ) → ScanTime n last (scan_time_of n last).0
unfolding scan_time_of
scan_time_of-ScanTime n last = elim (Bool-cases (n != 0)) [
  | inl given ↦ rw given (inl (ground (arith, given), refl))
  | inr missing ↦ rw missing (inr (ground (arith, missing), refl))
]

Submitted-Delivered :
    (vhf_submit : PtpReport → ℕ) (context : DeviceContext) (f : IoctlFrame) (s : Submission)
    → Submitted vhf_submit context f s
    → Delivered vhf_submit context f s
Submitted-Delivered vhf_submit context f s r = record {
  report = r.report;
  submitted = r.submitted;
  status = r.status;
  report_id = r.valid.report_id;
  size = r.valid.size;
  contacts = λ k h.
      subst
        (λ l.
          ShowsLast k (contact_at f) 0 f.report_contact_count zero_ptp_contact
            (get_or l k zero_ptp_contact))
        (sym r.contacts) (entries_of-ShowsLast f k h);
  contact_count = r.contact_count;
  button = r.button ∙ ground (arith, and_2 f.flags);
  scan_time =
      subst (ScanTime f.scan_time_100us context.last_scan_time) (sym r.scan_time)
        (scan_time_of-ScanTime f.scan_time_100us context.last_scan_time);
  submit_count = r.submit_count;
  last_submit_status = r.last_submit_status;
}

-- Of any frame, whatever a caller sends. When it is of this version, has no unknown flag, counts of at
-- most five, and every contact that it counts has a slot below five, no unknown flag and a reserved byte
-- of zero, one report goes to the HID stack: at each slot that a contact has it holds the last one, with
-- its confidence and its tip at their bits, its slot as identifier and its coordinates up to the maximum,
-- and zeros at the other slots; the contact count and the button are those of the frame, and so is the
-- scan time, or it is one more than the last counted one where the frame has none. The answer is the HID
-- stack's, and it is kept and counted. Otherwise nothing is submitted, nothing is counted, and the answer
-- is STATUS_INVALID_PARAMETER.
pub submit_ioctl_frame-Delivered :
    (vhf_submit : PtpReport → ℕ) (context : DeviceContext) (f : IoctlFrame)
    → (IsKnownFrame f × Delivered vhf_submit context f (submit_ioctl_frame vhf_submit context f))
      ⊎ ((IsKnownFrame f → ⊥) × Refused context (submit_ioctl_frame vhf_submit context f))
submit_ioctl_frame-Delivered vhf_submit context f =
    elim (submit_ioctl_frame-cases vhf_submit context f) [
      | inl (h, s) ↦ inl (InRange-IsKnownFrame f h, Submitted-Delivered vhf_submit context f _ s)
      | inr (n, s) ↦ inr ((λ h. n (IsKnownFrame-InRange f h)), s)
    ]
