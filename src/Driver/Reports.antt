-- ===== src/Driver/Reports.antt =====
-- windows/driver/Driver.c: what `SubmitIoctlFrame` refuses, and the reports that it submits.
use touchpad.Base.{
  ℕ, zero, suc, ◌+◌, ◌*◌, ◌%◌, ◌^◌, ◌≤◌, ◌<◌, ◌≡◌, ap, refl, ◌∙◌, ◌⊎◌, inl, inr, arith, Bool, true,
  false, ◌==◌, if◌then◌else◌, none, some, List, set, get_or, length, length-set, All, All-set,
  bit_or, Bool-cases, get_or-set_self, get_or-set_ne,
}
use touchpad.Ioctl.{IoctlContact, zero_ioctl_contact, hid_max_contacts, coordinate_logical_max}
use touchpad.Driver.Types.{PtpContact, PtpReport, zero_ptp_contact, report_id_input}
use touchpad.Driver.Submit.{bad_contact, ptp_contact, fill_contacts}

-- A contact of the HID report: the two flag bits, an identifier in range, coordinates in range.
pub record IsPtpContact (c : PtpContact) : Type 0 where
  pub flags : c.flags < 4
  pub contact_id : c.contact_id < hid_max_contacts
  pub x : c.x ≤ coordinate_logical_max
  pub y : c.y ≤ coordinate_logical_max

-- A report that the report descriptor describes.
pub record IsPtpReport (r : PtpReport) : Type 0 where
  pub report_id : r.report_id ≡ report_id_input
  pub size : length r.contacts ≡ hid_max_contacts
  pub contacts : All IsPtpContact r.contacts
  pub contact_count : r.contact_count ≤ hid_max_contacts
  pub button : r.button < 2

-- The flags of the report from those of the frame.
ptp_flags-lt : (p q : Bool) → bit_or (if p then 1 else 0) ((if q then 1 else 0) * 2 % 2 ^ 8) < 4
ptp_flags-lt true true = omega arith
ptp_flags-lt true false = omega arith
ptp_flags-lt false true = omega arith
ptp_flags-lt false false = omega arith

ptp_contact-IsPtpContact : (c : IoctlContact) → bad_contact c ≡ false → IsPtpContact (ptp_contact c)
unfolding ptp_contact
ptp_contact-IsPtpContact c h = record {
  flags = ptp_flags-lt _ _;
  contact_id = ground (arith, h);
  x = ground arith;
  y = ground arith;
}

-- The entries from `i` on that the loop reads are all in range.
abbrev pub EntriesInRange : ℕ → ℕ → List IoctlContact → Type 0
EntriesInRange zero i cs = Unit
EntriesInRange (suc n) i cs =
    (bad_contact (get_or cs i zero_ioctl_contact) ≡ false) × EntriesInRange n (i + 1) cs

-- The entry of the report for slot `k`: that of the last contact with the slot, or `d`.
abbrev pub entry_of : ℕ → ℕ → ℕ → List IoctlContact → PtpContact → PtpContact
entry_of k zero i cs d = d
entry_of k (suc n) i cs d =
    let source = get_or cs i zero_ioctl_contact in
    entry_of k n (i + 1) cs (if source.slot == k then ptp_contact source else d)

-- What the loop makes of a report.
pub record Filled (n i : ℕ) (cs : List IoctlContact) (report r : List PtpContact) : Type 0 where
  pub size : length r ≡ length report
  pub contacts : All IsPtpContact r
  pub entries :
      (k : ℕ)
      → k < length report
      → get_or r k zero_ptp_contact ≡ entry_of k n i cs (get_or report k zero_ptp_contact)

get_or-set_if :
    (report : List PtpContact) (slot k : ℕ) (v : PtpContact)
    → k < length report
    → get_or (set report slot v) k zero_ptp_contact
      ≡ (if slot == k then v else get_or report k zero_ptp_contact)
get_or-set_if report slot k v h = elim (Bool-cases (slot == k)) [
  | inl same ↦
      let e : slot ≡ k = ground (arith, same) in
      rw same (
        ap (λ j. get_or (set report j v) k zero_ptp_contact) e
        ∙ get_or-set_self report k v zero_ptp_contact h)
  | inr other ↦ rw other (get_or-set_ne report slot k v zero_ptp_contact (ground (arith, other)))
]

-- The loop refuses a report exactly when an entry that it reads is out of range.
pub fill_contacts-cases :
    (n i : ℕ) (cs : List IoctlContact) (report : List PtpContact)
    → All IsPtpContact report
    → (EntriesInRange n i cs
        × (r : List PtpContact) × (fill_contacts n i cs report ≡ some r)
        × Filled n i cs report r)
      ⊎ ((EntriesInRange n i cs → ⊥) × (fill_contacts n i cs report ≡ none))
unfolding fill_contacts
fill_contacts-cases zero i cs report a =
    inl (tt, report, refl, record { size = refl; contacts = a; entries = λ k h. refl })
fill_contacts-cases (suc n) i cs report a =
    elim (Bool-cases (bad_contact (get_or cs i zero_ioctl_contact))) [
      | inl bad ↦ inr ((λ e. absurd (ground (arith, bad, e.0))), rw bad refl)
      | inr good ↦
          let source = get_or cs i zero_ioctl_contact in
          let p : IsPtpContact (ptp_contact source) = ptp_contact-IsPtpContact source good in
          elim (fill_contacts-cases n (i + 1) cs (set report source.slot (ptp_contact source))
            (All-set IsPtpContact report source.slot (ptp_contact source) a p)) [
              | inl (e, r, f, filled) ↦ inl (
                (good, e),
                r,
                rw good f,
                record {
                  size = filled.size ∙ length-set report source.slot (ptp_contact source);
                  contacts = filled.contacts;
                  entries = λ k h.
                      filled.entries k
                        (omega (arith, h, length-set report source.slot (ptp_contact source)))
                      ∙ ap (entry_of k n (i + 1) cs)
                          (get_or-set_if report source.slot k (ptp_contact source) h);
                },
              )
              | inr (ne, f) ↦ inr ((λ e. ne e.1), rw good f)
            ]
    ]
