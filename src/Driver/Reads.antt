-- ===== src/Driver/Reads.antt =====
-- windows/driver/Driver.c and Descriptor.c: what a host reads of a frame that the driver submits.
use touchpad.Base.{
  ℕ, zero, suc, ◌+◌, ◌*◌, ◌%◌, ◌^◌, ◌<◌, Bool, true, false, Option, none, ◌==◌, get_or, bit_or, ◌≡◌,
  refl, ap, subst, ◌∙◌, inl, inr, arith, ◌!=◌, if◌then◌else◌, some, List, [], ◌∷◌, length, All,
  bit_and, Bool-cases,
}
use touchpad.Ioctl.{
  IoctlContact, IoctlFrame, zero_ioctl_contact, coordinate_logical_max, ioctl_contact_tip,
  ioctl_contact_confidence, ioctl_frame_button,
}
use touchpad.Driver.Types.{
  DeviceContext, PtpContact, PtpReport, zero_ptp_contact, sizeof_ptp_report,
}
use touchpad.Driver.Submit.{submit_ioctl_frame, scan_time_of, ptp_contact, clamp_coordinate}
use touchpad.Driver.Reports.{entry_of}
use touchpad.Driver.Accepts.{InRange, entries_of, submit_ioctl_frame-cases}
use touchpad.Driver.Descriptor.{report_descriptor}
use touchpad.Driver.Hid.{Reading, host_reads}
use touchpad.Driver.Layout.{
  reading, contact_readings, report_readings, report_bytes, InLogicalRange, host_reads-report_bytes,
}

-- The last of `n` entries from `i` on that is for slot `k`, or `d`.
abbrev pub last_contact : ℕ → ℕ → ℕ → List IoctlContact → Option IoctlContact → Option IoctlContact
last_contact k zero i cs d = d
last_contact k (suc n) i cs d =
    let source = get_or cs i zero_ioctl_contact in
    last_contact k n (i + 1) cs (if source.slot == k then some source else d)

abbrev pub one_if : Bool → ℕ
one_if b = if b then 1 else 0

-- What the host is to read at the place of a slot: of a contact its flags, its slot and its clamped
-- coordinates, and zeros where the frame has none.
abbrev pub slot_readings : Option IoctlContact → List Reading → List Reading
slot_readings none rest =
    reading 0x0D 0x47 1 0
    ∷ reading 0x0D 0x42 1 0
    ∷ reading 0x0D 0x51 0xFFFF_FFFF 0
    ∷ reading 0x01 0x30 coordinate_logical_max 0
    ∷ reading 0x01 0x31 coordinate_logical_max 0
    ∷ rest
slot_readings (some c) rest =
    reading 0x0D 0x47 1 (one_if (bit_and c.flags ioctl_contact_confidence != 0))
    ∷ reading 0x0D 0x42 1 (one_if (bit_and c.flags ioctl_contact_tip != 0))
    ∷ reading 0x0D 0x51 0xFFFF_FFFF c.slot
    ∷ reading 0x01 0x30 coordinate_logical_max (clamp_coordinate c.x)
    ∷ reading 0x01 0x31 coordinate_logical_max (clamp_coordinate c.y)
    ∷ rest

-- What the host is to read of a frame: the five slots, the scan time, or the driver's own counter in its
-- place, the number of active contacts, and the button.
abbrev pub frame_readings : DeviceContext → IoctlFrame → List Reading
frame_readings context f =
    let slot : ℕ → List Reading → List Reading =
      λ k. slot_readings (last_contact k f.report_contact_count 0 f.contacts none) in
    slot 0 (
      slot 1 (
        slot 2 (
          slot 3 (
            slot 4 (
              reading 0x0D 0x56 0xFFFF (
                if f.scan_time_100us != 0
                then f.scan_time_100us
                else (context.last_scan_time + 1) % 2 ^ 16)
              ∷ reading 0x0D 0x54 0x7F f.active_contact_count
              ∷ reading 0x09 0x01 1 (one_if (bit_and f.flags ioctl_frame_button != 0))
              ∷ [])))))

-- The entry of the report for an optional contact.
abbrev ptp_entry : Option IoctlContact → PtpContact
ptp_entry none = zero_ptp_contact
ptp_entry (some c) = ptp_contact c

ptp_entry-if :
    (b : Bool) (c : IoctlContact) (d : Option IoctlContact)
    → (if b then ptp_contact c else ptp_entry d) ≡ ptp_entry (if b then some c else d)
ptp_entry-if true c d = refl
ptp_entry-if false c d = refl

entry_of-last_contact :
    (k n i : ℕ) (cs : List IoctlContact) (d : Option IoctlContact)
    → entry_of k n i cs (ptp_entry d) ≡ ptp_entry (last_contact k n i cs d)
entry_of-last_contact k zero i cs d = refl
entry_of-last_contact k (suc n) i cs d =
    let source = get_or cs i zero_ioctl_contact in
    ap (entry_of k n (i + 1) cs) (ptp_entry-if (source.slot == k) source d)
    ∙ entry_of-last_contact k n (i + 1) cs (if source.slot == k then some source else d)

-- The two bits of the flags.
flag_readings :
    (p q : Bool) (c x y : ℕ) (rest : List Reading)
    → contact_readings
        (record { flags = bit_or (one_if p) (one_if q * 2 % 2 ^ 8); contact_id = c; x = x; y = y })
        rest
      ≡ reading 0x0D 0x47 1 (one_if p)
        ∷ reading 0x0D 0x42 1 (one_if q)
        ∷ reading 0x0D 0x51 0xFFFF_FFFF c
        ∷ reading 0x01 0x30 coordinate_logical_max x
        ∷ reading 0x01 0x31 coordinate_logical_max y
        ∷ rest
flag_readings true true c x y rest = refl
flag_readings true false c x y rest = refl
flag_readings false true c x y rest = refl
flag_readings false false c x y rest = refl

slot_readings-ptp_entry :
    (c : Option IoctlContact) (rest : List Reading)
    → contact_readings (ptp_entry c) rest ≡ slot_readings c rest
unfolding ptp_contact
slot_readings-ptp_entry none rest = refl
slot_readings-ptp_entry (some c) rest =
    flag_readings (bit_and c.flags ioctl_contact_confidence != 0)
      (bit_and c.flags ioctl_contact_tip != 0) c.slot (clamp_coordinate c.x) (clamp_coordinate c.y)
      rest

entry_readings :
    (f : IoctlFrame) (k : ℕ) {rest rest' : List Reading}
    → rest ≡ rest'
    → contact_readings (entry_of k f.report_contact_count 0 f.contacts zero_ptp_contact) rest
      ≡ slot_readings (last_contact k f.report_contact_count 0 f.contacts none) rest'
entry_readings f k {rest} {rest'} e =
    ap (contact_readings (entry_of k f.report_contact_count 0 f.contacts zero_ptp_contact)) e
    ∙ ap (λ (c : PtpContact). contact_readings c rest')
        (entry_of-last_contact k f.report_contact_count 0 f.contacts none)
    ∙ slot_readings-ptp_entry (last_contact k f.report_contact_count 0 f.contacts none) rest'

scan_time_of-value :
    (n last : ℕ)
    → ((scan_time_of n last).0 ≡ (if n != 0 then n else (last + 1) % 2 ^ 16))
      × (n < 2 ^ 16 → (scan_time_of n last).0 < 2 ^ 16)
unfolding scan_time_of
scan_time_of-value n last = elim (Bool-cases (n != 0)) [
  | inl e ↦ rw e (refl, (λ h. h))
  | inr e ↦ rw e (refl, (λ h. omega arith))
]

readings_of :
    (context : DeviceContext) (f : IoctlFrame) (r : PtpReport)
    → r.contacts ≡ entries_of f
    → r.scan_time ≡ (scan_time_of f.scan_time_100us context.last_scan_time).0
    → r.contact_count ≡ f.active_contact_count
    → r.button ≡ (if bit_and f.flags ioctl_frame_button != 0 then 1 else 0)
    → report_readings r ≡ frame_readings context f
readings_of context f r hc hs hn hb =
    rw (hc, hs ∙ (scan_time_of-value f.scan_time_100us context.last_scan_time).0, hn, hb)
      (entry_readings f 0
        (entry_readings f 1 (entry_readings f 2 (entry_readings f 3 (entry_readings f 4 refl)))))

-- Of any frame in the driver's ranges, whatever its caller: the one report that goes to the HID stack has
-- the size that the driver passes on, and a host that reads its bytes by the driver's report descriptor
-- finds at each of the five slots the last contact that the frame has for it, with its confidence, its tip
-- switch, its slot as the identifier and its clamped coordinates, or zeros where it has none, then the scan time, which is the driver's own counter when the frame has
-- none, the number of active contacts and the button, every value in the logical range of its field.
pub submit_ioctl_frame-host_reads :
    (vhf_submit : PtpReport → ℕ) (context : DeviceContext) (f : IoctlFrame)
    → InRange f
    → f.scan_time_100us < 2 ^ 16
    → (report : PtpReport) × ((submit_ioctl_frame vhf_submit context f).submitted ≡ some report)
      × (length (report_bytes report) ≡ sizeof_ptp_report)
      × (host_reads report_descriptor (report_bytes report) ≡ some (frame_readings context f))
      × All InLogicalRange (frame_readings context f)
submit_ioctl_frame-host_reads vhf_submit context f h fits =
    elim (submit_ioctl_frame-cases vhf_submit context f) [
      | inl (r, s) ↦
          let e = readings_of context f s.report s.contacts s.scan_time s.contact_count s.button in
          let (found, ranges, size) = host_reads-report_bytes s.report s.valid (
            rw s.scan_time
              ((scan_time_of-value f.scan_time_100us context.last_scan_time).1 fits)) in
          (s.report, s.submitted, size, found ∙ ap some e, subst (All InLogicalRange) e ranges)
      | inr (n, s) ↦ absurd (n h)
    ]
