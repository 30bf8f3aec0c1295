-- ===== src/Driver/Accepts.antt =====
-- windows/driver/Driver.c: `SubmitIoctlFrame` on every frame, and that it takes what the receiver sends.
use touchpad.Base.{
  ℕ, zero, suc, ◌+◌, ◌%◌, ◌^◌, ◌<◌, ◌≡◌, refl, ◌∙◌, ◌⊎◌, inl, inr, arith, false, ◌!=◌,
  if◌then◌else◌, none, some, List, [], ◌∷◌, get_or, length, All, All-get_or, All-replicate, bit_and,
  Bool-cases, and_not_seven,
}
use touchpad.Ioctl.{
  IoctlContact, IoctlFrame, IsSubmittable, IsSubmittableContact, zero_ioctl_contact,
  hid_max_contacts, ioctl_frame_button,
}
use touchpad.Driver.Types.{
  DeviceContext, PtpContact, PtpReport, zero_report, zero_ptp_contact, report_id_input,
  status_invalid_parameter,
}
use touchpad.Driver.Submit.{
  Submission, bad_contact, bad_frame, scan_time_of, submit_report, submit_filled,
  submit_ioctl_frame,
}
use touchpad.Driver.Reports.{
  IsPtpContact, IsPtpReport, EntriesInRange, entry_of, Filled, fill_contacts-cases,
}

-- The five entries of the report for a frame, each that of the last contact of its slot, or zero.
abbrev pub entries_of : IoctlFrame → List PtpContact
entries_of f =
    let entry : ℕ → PtpContact =
      λ k. entry_of k f.report_contact_count 0 f.contacts zero_ptp_contact in
    entry 0 ∷ entry 1 ∷ entry 2 ∷ entry 3 ∷ entry 4 ∷ []

five :
    (xs : List PtpContact)
    → length xs ≡ 5
    → xs
      ≡ get_or xs 0 zero_ptp_contact
        ∷ get_or xs 1 zero_ptp_contact
        ∷ get_or xs 2 zero_ptp_contact
        ∷ get_or xs 3 zero_ptp_contact
        ∷ get_or xs 4 zero_ptp_contact
        ∷ []
five (a ∷ b ∷ c ∷ d ∷ e ∷ []) h = refl
five [] h = absurd (omega arith)
five (a ∷ []) h = absurd (omega arith)
five (a ∷ b ∷ []) h = absurd (omega arith)
five (a ∷ b ∷ c ∷ []) h = absurd (omega arith)
five (a ∷ b ∷ c ∷ d ∷ []) h = absurd (omega arith)
five (a ∷ b ∷ c ∷ d ∷ e ∷ f ∷ g) h = absurd (omega arith)

Filled-entries_of :
    (f : IoctlFrame) (r : List PtpContact)
    → Filled f.report_contact_count 0 f.contacts zero_report.contacts r
    → r ≡ entries_of f
Filled-entries_of f r h =
    five r h.size
    ∙ (rw
        (
          h.entries 0 (omega arith),
          h.entries 1 (omega arith),
          h.entries 2 (omega arith),
          h.entries 3 (omega arith),
          h.entries 4 (omega arith),
        )
        refl)

-- The frame and the entries that it reports are in range.
abbrev pub InRange : IoctlFrame → Type 0
InRange f = (bad_frame f ≡ false) × EntriesInRange f.report_contact_count 0 f.contacts

-- A submission of the report `r`.
pub record Submitted (vhf_submit : PtpReport → ℕ) (context : DeviceContext) (f : IoctlFrame)
    (s : Submission) : Type 0 where
  pub report : PtpReport
  pub submitted : s.submitted ≡ some report
  pub status : s.status ≡ vhf_submit report
  pub valid : IsPtpReport report
  pub contacts : report.contacts ≡ entries_of f
  pub contact_count : report.contact_count ≡ f.active_contact_count
  pub button : report.button ≡ (if bit_and f.flags ioctl_frame_button != 0 then 1 else 0)
  pub scan_time : report.scan_time ≡ (scan_time_of f.scan_time_100us context.last_scan_time).0
  pub submit_count : s.context.submit_count ≡ (context.submit_count + 1) % 2 ^ 32
  pub last_submit_status : s.context.last_submit_status ≡ s.status

zero-All : All IsPtpContact zero_report.contacts
zero-All =
    All-replicate IsPtpContact hid_max_contacts zero_ptp_contact
      (record { flags = omega arith; contact_id = omega arith; x = omega arith; y = omega arith })

-- A refusal.
pub record Refused (context : DeviceContext) (s : Submission) : Type 0 where
  pub submitted : s.submitted ≡ none
  pub status : s.status ≡ status_invalid_parameter
  pub submit_count : s.context.submit_count ≡ context.submit_count
  pub last_submit_status : s.context.last_submit_status ≡ context.last_submit_status

module _ (vhf_submit : PtpReport → ℕ) (context : DeviceContext) (f : IoctlFrame) where
  abbrev report_for : List PtpContact → PtpReport
  report_for r = record {
    report_id = report_id_input;
    contacts = r;
    scan_time = (scan_time_of f.scan_time_100us context.last_scan_time).0;
    contact_count = f.active_contact_count;
    button = if bit_and f.flags ioctl_frame_button != 0 then 1 else 0;
  }

  submit_report-Submitted :
      (r : List PtpContact)
      → Filled f.report_contact_count 0 f.contacts zero_report.contacts r
      → bad_frame f ≡ false
      → Submitted vhf_submit context f (
          submit_report vhf_submit f (report_for r) (record context {
            last_scan_time = (scan_time_of f.scan_time_100us context.last_scan_time).1;
          }))
  unfolding submit_report
  submit_report-Submitted r h good = record {
    report = report_for r;
    submitted = refl;
    status = refl;
    valid = record {
      report_id = refl;
      size = h.size;
      contacts = h.contacts;
      contact_count = ground (arith, good);
      button = ground arith;
    };
    contacts = Filled-entries_of f r h;
    contact_count = refl;
    button = refl;
    scan_time = refl;
    submit_count = refl;
    last_submit_status = refl;
  }

  -- Of any frame, whatever a caller sends: when the frame and every entry that it reports are in range,
  -- one report goes to the HID stack, of the format of the report descriptor, with the contacts of the
  -- frame at their slots, its contact count and its button, and the answer is the HID stack's. Otherwise
  -- nothing is submitted, nothing is counted, and the answer is STATUS_INVALID_PARAMETER.
  pub submit_ioctl_frame-cases :
      (InRange f × Submitted vhf_submit context f (submit_ioctl_frame vhf_submit context f))
      ⊎ ((InRange f → ⊥) × Refused context (submit_ioctl_frame vhf_submit context f))
  unfolding submit_ioctl_frame submit_filled
  submit_ioctl_frame-cases = elim (Bool-cases (bad_frame f)) [
    | inl bad ↦ inr (
      (λ h. absurd (cc)),
      rw bad (record {
        submitted = refl;
        status = refl;
        submit_count = refl;
        last_submit_status = refl;
      }),
    )
    | inr good ↦
        elim (fill_contacts-cases f.report_contact_count 0 f.contacts zero_report.contacts
          zero-All) [
            | inl (e, r, filled, h) ↦
                inl ((good, e), rw (good, filled) (submit_report-Submitted r h good))
            | inr (ne, filled) ↦ inr (
              (λ h. ne h.1),
              rw (good, filled)
                  (record {
                    submitted = refl;
                    status = refl;
                    submit_count = refl;
                    last_submit_status = refl;
                  }),
            )
          ]
  ]

bad_contact-IsSubmittable : (c : IoctlContact) → IsSubmittableContact c → bad_contact c ≡ false
bad_contact-IsSubmittable c h = ground (arith, h.slot, h.reserved, h.flags, and_not_seven c.flags)

EntriesInRange-All :
    (n i : ℕ) (cs : List IoctlContact) → All IsSubmittableContact cs → EntriesInRange n i cs
EntriesInRange-All zero i cs h = tt
EntriesInRange-All (suc n) i cs h = (
  bad_contact-IsSubmittable _ (
      All-get_or IsSubmittableContact cs i zero_ioctl_contact h (record {
        slot = omega arith;
        flags = omega arith;
        x = omega arith;
        y = omega arith;
        reserved = refl;
      })),
  EntriesInRange-All n (i + 1) cs h,
)

frame_flags : (f : ℕ) → f < 4 → bit_and f 0xffff_fffc ≡ 0
frame_flags zero h = refl
frame_flags (suc zero) h = refl
frame_flags (suc (suc zero)) h = refl
frame_flags (suc (suc (suc zero))) h = refl
frame_flags (suc (suc (suc (suc f)))) h = absurd (omega arith)

pub IsSubmittable-InRange : (f : IoctlFrame) → IsSubmittable f → InRange f
IsSubmittable-InRange f h = (
  ground (arith, h.abi, h.active, h.reported, frame_flags f.flags h.flags),
  EntriesInRange-All f.report_contact_count 0 f.contacts h.contacts,
)

-- A frame in the ranges of the receiver is always submitted: one report goes to the HID stack, with its
-- contacts at their slots, its contact count and its button, it is counted, and the answer is that of
-- the HID stack.
pub submit_ioctl_frame-Submitted :
    (vhf_submit : PtpReport → ℕ) (context : DeviceContext) (f : IoctlFrame)
    → IsSubmittable f
    → Submitted vhf_submit context f (submit_ioctl_frame vhf_submit context f)
submit_ioctl_frame-Submitted vhf_submit context f h =
    elim (submit_ioctl_frame-cases vhf_submit context f) [
      | inl (r, s) ↦ s
      | inr (n, s) ↦ absurd (n (IsSubmittable-InRange f h))
    ]
