-- ===== src/Driver/Requests.antt =====
-- windows/driver/Driver.c: the device's life, its requests, and its feature reports.
use touchpad.Base.{
  ℕ, suc, ◌+◌, ◌%◌, ◌^◌, ◌≤◌, ◌≡◌, ap, refl, ◌∙◌, ◌⊎◌, inl, inr, arith, Bool, true, false, not, leb,
  ◌==◌, ◌&&◌, if◌then◌else◌, none, some, List, [], ◌∷◌, ◌++◌, set, drop, length, Bool-cases,
}
use touchpad.Ioctl.{IoctlStatus, IsSubmittable, hid_max_contacts}
use touchpad.Driver.Types.{
  DeviceContext, PtpReport, nt_success, status_success, status_invalid_parameter, report_id_caps,
  report_id_certification,
}
use touchpad.Driver.Submit.{submit_ioctl_frame}
use touchpad.Driver.Control.{
  Request, Platform, Added, VhfCall, vhf_create, vhf_start, vhf_delete, status_record,
  ioctl_mtp_submit_frame, ioctl_mtp_query_status, sizeof_ioctl_frame, evt_io_device_control,
  evt_device_add, evt_device_cleanup,
}
use touchpad.Driver.Features.{HidXferPacket, fill_feature, get_feature}
use touchpad.Driver.Accepts.{submit_ioctl_frame-Submitted}

-- Whether a virtual device is there behind the calls.
abbrev pub device_exists : Bool → List VhfCall → Bool → Bool
device_exists created [] b = b
device_exists created (vhf_create ∷ calls) b = device_exists created calls created
device_exists created (vhf_start ∷ calls) b = device_exists created calls b
device_exists created (vhf_delete ∷ calls) b = device_exists created calls false

-- The status tells whether the handle is set, the handle tells whether a virtual device is there, and
-- the cleanup leaves none.
pub record IsConsistent (created : Bool) (a : Added) : Type 0 where
  pub status : nt_success a.status ≡ a.context.vhf_handle
  pub device : device_exists created a.calls false ≡ a.context.vhf_handle
  pub no_handle : (evt_device_cleanup a.context).0.vhf_handle ≡ false
  pub no_device :
      device_exists created (evt_device_cleanup a.context).1 a.context.vhf_handle ≡ false

if-Consistent :
    (b c : Bool) (x y : Added)
    → (b ≡ false → IsConsistent c x)
    → (b ≡ true → IsConsistent c y)
    → IsConsistent c (if not b then x else y)
if-Consistent true c x y p q = q refl
if-Consistent false c x y p q = p refl

-- `MtpEvtDeviceAdd`, whatever the framework's calls answer: it succeeds exactly when it leaves a handle,
-- a virtual device is there exactly then, on every early return none is, and `MtpEvtDeviceCleanup`
-- behind it leaves no device and no handle.
pub evt_device_add-IsConsistent :
    (p : Platform) → IsConsistent (nt_success p.vhf_create) (evt_device_add p)
unfolding evt_device_add evt_device_cleanup
evt_device_add-IsConsistent p =
    if-Consistent (nt_success p.device_create) _ _ _
      (λ h. record { status = h; device = refl; no_handle = refl; no_device = refl })
      λ h₁.
        if-Consistent (nt_success p.symbolic_link) _ _ _
          (λ h. record { status = h; device = refl; no_handle = refl; no_device = refl })
          λ h₂.
            if-Consistent (nt_success p.lock_create) _ _ _
              (λ h. record { status = h; device = refl; no_handle = refl; no_device = refl })
              λ h₃.
                if-Consistent (nt_success p.queue_create) _ _ _
                  (λ h. record { status = h; device = refl; no_handle = refl; no_device = refl })
                  λ h₄.
                    if-Consistent (nt_success p.vhf_create) _ _ _
                      (λ h. record {
                        status = refl;
                        device = h;
                        no_handle = refl;
                        no_device = refl;
                      })
                      λ h₅.
                        if-Consistent (nt_success p.vhf_start) _ _ _
                          (λ h. record {
                            status = refl;
                            device = refl;
                            no_handle = refl;
                            no_device = refl;
                          })
                          λ h₆. record {
                            status = refl;
                            device = h₅;
                            no_handle = refl;
                            no_device = refl;
                          }

-- A query and then nothing else: two requests in turn.
module _ (vhf_submit : PtpReport → ℕ) (context : DeviceContext) where
  -- The status that a query answers right behind the submission of a frame that the receiver may send
  -- counts that submission and holds what the HID stack answered to it.
  pub query_after_submit :
      (frame query : Request) (n : ℕ)
      → IsSubmittable frame.input
      → nt_success frame.input_status ≡ true
      → nt_success query.output_status ≡ true
      → let submit =
          evt_io_device_control vhf_submit ioctl_mtp_submit_frame sizeof_ioctl_frame frame
            context in
        let answer =
          evt_io_device_control vhf_submit ioctl_mtp_query_status n query submit.context in
        (report : PtpReport) × (status : IoctlStatus) × (submit.submitted ≡ some report)
        × (submit.status ≡ vhf_submit report)
        × (answer.output ≡ some status)
        × (answer.submitted ≡ none)
        × (status.submit_count ≡ (context.submit_count + 1) % 2 ^ 32)
        × (status.last_submit_status ≡ vhf_submit report)
  unfolding evt_io_device_control status_record
  query_after_submit frame query n h fi qo =
      let s = submit_ioctl_frame-Submitted vhf_submit context frame.input h in
      rw (fi, qo)
        (
          s.report,
          status_record (submit_ioctl_frame vhf_submit context frame.input).context,
          s.submitted,
          s.status,
          refl,
          refl,
          s.submit_count,
          s.last_submit_status ∙ s.status,
        )

-- A feature report that the driver can give: the capabilities in three bytes, the certification blob in
-- 257.
abbrev pub IsGiven : ℕ → ℕ → Type 0
IsGiven report_id n =
    ((report_id ≡ report_id_caps) × (3 ≤ n)) ⊎ ((report_id ≡ report_id_certification) × (257 ≤ n))

-- The answer of a feature report in the buffer: its identifier, and behind it the capabilities or the
-- blob; the rest of the buffer stays.
abbrev pub feature_bytes : List ℕ → ℕ → List ℕ
feature_bytes blob report_id =
    if report_id == report_id_caps
    then report_id_caps ∷ hid_max_contacts ∷ 0 ∷ []
    else report_id_certification ∷ blob

-- A buffer of at least three bytes, with its first three written.
three :
    (buffer : List ℕ) (a b c : ℕ)
    → 3 ≤ length buffer
    → set (set (set buffer 0 a) 1 b) 2 c ≡ a ∷ b ∷ c ∷ drop 3 buffer
three [] a b c h = absurd (omega arith)
three (x ∷ []) a b c h = absurd (omega arith)
three (x ∷ y ∷ []) a b c h = absurd (omega arith)
three (x ∷ y ∷ z ∷ buffer) a b c h = refl

-- `MtpEvtVhfGetFeature` on a packet whose buffer has the length that the packet says, with a blob of 256
-- bytes: it never writes behind the buffer. A known report that fits is written from the start of the
-- buffer on, over as many bytes as it has; otherwise the answer is STATUS_INVALID_PARAMETER and the
-- buffer stays as it is. Both are counted.
pub get_feature-cases :
    (blob buffer : List ℕ) (report_id : ℕ) (context : DeviceContext)
    → length blob ≡ 256
    → let p : HidXferPacket = record {
      report_buffer = some buffer;
      report_buffer_len = length buffer;
      report_id = report_id;
    } in
      let r = get_feature blob (some p) context in
      (r.context.get_feature_count ≡ (context.get_feature_count + 1) % 2 ^ 32)
      × ((IsGiven report_id (length buffer)
            × (r.status ≡ status_success)
            × (r.buffer
                ≡ some (
                    feature_bytes blob report_id
                    ++ drop (length (feature_bytes blob report_id)) buffer))
            × (length (feature_bytes blob report_id) ≤ length buffer))
          ⊎ ((IsGiven report_id (length buffer) → ⊥)
              × (r.status ≡ status_invalid_parameter)
              × (r.buffer ≡ some buffer)))
unfolding get_feature fill_feature
get_feature-cases blob buffer report_id context h = (
  refl,
  elim (Bool-cases (report_id == report_id_caps && leb 3 (length buffer))) [
    | inl caps ↦
        let is : (report_id == report_id_caps) ≡ true = ground (arith, caps) in
        let fits : leb 3 (length buffer) ≡ true = ground (arith, caps) in
        inl (
          inl (ground (arith, caps), ground (arith, caps)),
          rw (is, fits) refl,
          rw (is, fits)
              (ap some (three buffer report_id_caps hid_max_contacts 0 (ground (arith, fits)))),
          rw is (ground (arith, fits)),
        )
    | inr other ↦
        elim (Bool-cases (report_id == report_id_certification && leb 257 (length buffer))) [
          | inl certified ↦
              let not_caps : (report_id == report_id_caps) ≡ false = ground (arith, certified) in
              let size : 257 ≡ suc (length blob) = omega (arith, h) in
              inl (
                inr (ground (arith, certified), ground (arith, certified)),
                rw (not_caps, certified) refl,
                rw (not_caps, certified)
                    (ap (λ n. some (report_id_certification ∷ (blob ++ drop n buffer))) size),
                rw not_caps (ground (arith, h, certified)),
              )
          | inr neither ↦ inr (
            (λ g. elim g [
              | inl g' ↦ ground (arith, other, g')
              | inr g' ↦ ground (arith, neither, g')
            ]),
            rw (other, neither) refl,
            rw (other, neither) refl,
          )
        ]
  ],
)
