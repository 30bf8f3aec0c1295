-- ===== src/Driver/Layout.antt =====
-- windows/driver/Driver.h and Descriptor.c: the packed report as bytes, and what a host reads in it
-- by the report descriptor.
use touchpad.Base.{
  ℕ, suc, ◌+◌, ◌*◌, ◌/◌, ◌%◌, ◌^◌, ◌≤◌, ◌<◌, ◌≡◌, refl, ap, ap₂, ◌∙◌, arith, Option, some, List, [],
  ◌∷◌, length, All,
}
use touchpad.Ioctl.{hid_max_contacts, coordinate_logical_max}
use touchpad.Driver.Types.{PtpContact, PtpReport, report_id_input, sizeof_ptp_report}
use touchpad.Driver.Reports.{IsPtpContact, IsPtpReport}
use touchpad.Driver.Descriptor.{report_descriptor}
use touchpad.Driver.Hid.{Field, Reading, read_bits, host_reads, read_by, read_report}
use touchpad.Driver.Fields.{declared_fields, parsed}

-- Little-endian stores of a `USHORT` and a `ULONG`.
abbrev pub put_le16 : ℕ → List ℕ → List ℕ
put_le16 v rest = (v % 2 ^ 8) ∷ (v / 2 ^ 8 % 2 ^ 8) ∷ rest

abbrev pub put_le32 : ℕ → List ℕ → List ℕ
put_le32 v rest =
    (v % 2 ^ 8) ∷ (v / 2 ^ 8 % 2 ^ 8) ∷ (v / 2 ^ 16 % 2 ^ 8) ∷ (v / 2 ^ 24 % 2 ^ 8) ∷ rest

abbrev pub contact_bytes : PtpContact → List ℕ → List ℕ
contact_bytes c rest = (c.flags % 2 ^ 8) ∷ put_le32 c.contact_id (put_le16 c.x (put_le16 c.y rest))

abbrev pub contacts_bytes : List PtpContact → List ℕ → List ℕ
contacts_bytes [] rest = rest
contacts_bytes (c ∷ cs) rest = contact_bytes c (contacts_bytes cs rest)

-- The report as it lies in memory, without gaps.
abbrev pub report_bytes : PtpReport → List ℕ
report_bytes r =
    (r.report_id % 2 ^ 8)
    ∷ contacts_bytes r.contacts
        (put_le16 r.scan_time ((r.contact_count % 2 ^ 8) ∷ (r.button % 2 ^ 8) ∷ []))

abbrev pub reading : ℕ → ℕ → ℕ → ℕ → Reading
reading page usage max value = record {
  usage_page = page;
  usage = usage;
  logical_max = max;
  value = value;
}

-- What a Precision Touchpad host is to read for a contact: confidence, tip switch, contact
-- identifier, X, Y.
abbrev pub contact_readings : PtpContact → List Reading → List Reading
contact_readings c rest =
    reading 0x0D 0x47 1 (c.flags % 2)
    ∷ reading 0x0D 0x42 1 (c.flags / 2 % 2)
    ∷ reading 0x0D 0x51 0xFFFF_FFFF c.contact_id
    ∷ reading 0x01 0x30 coordinate_logical_max c.x
    ∷ reading 0x01 0x31 coordinate_logical_max c.y
    ∷ rest

abbrev pub contacts_readings : List PtpContact → List Reading → List Reading
contacts_readings [] rest = rest
contacts_readings (c ∷ cs) rest = contact_readings c (contacts_readings cs rest)

-- And for the report: the contacts, the scan time, the contact count, the button.
abbrev pub report_readings : PtpReport → List Reading
report_readings r = contacts_readings r.contacts (
    reading 0x0D 0x56 0xFFFF r.scan_time
    ∷ reading 0x0D 0x54 0x7F r.contact_count
    ∷ reading 0x09 0x01 1 r.button
    ∷ [])

abbrev pub InLogicalRange : Reading → Type 0
InLogicalRange v = v.value ≤ v.logical_max

-- What the host finds in the bytes of a contact.
abbrev pub found_readings : PtpContact → List Reading → List Reading
found_readings c rest =
    reading 0x0D 0x47 1 (read_bits 0 1 (contact_bytes c []))
    ∷ reading 0x0D 0x42 1 (read_bits 1 1 (contact_bytes c []))
    ∷ reading 0x0D 0x51 0xFFFF_FFFF (read_bits 8 32 (contact_bytes c []))
    ∷ reading 0x01 0x30 coordinate_logical_max (read_bits 40 16 (contact_bytes c []))
    ∷ reading 0x01 0x31 coordinate_logical_max (read_bits 56 16 (contact_bytes c []))
    ∷ rest

read_next :
    (page usage max : ℕ) {v w : ℕ} {rest rest' : List Reading}
    → v ≡ w
    → rest ≡ rest'
    → (reading page usage max v ∷ rest) ≡ (reading page usage max w ∷ rest')
read_next page usage max e f =
    ap₂ (λ (v : ℕ) (rs : List Reading). reading page usage max v ∷ rs) e f

found_readings_lem :
    (c : PtpContact) {rest rest' : List Reading}
    → IsPtpContact c
    → rest ≡ rest'
    → found_readings c rest ≡ contact_readings c rest'
found_readings_lem c p e = read_next 0x0D 0x47 1 (omega arith) (
    read_next 0x0D 0x42 1 (omega arith) (
      read_next 0x0D 0x51 0xFFFF_FFFF (omega (arith, p.contact_id)) (
        read_next 0x01 0x30 coordinate_logical_max (omega (arith, p.x))
          (read_next 0x01 0x31 coordinate_logical_max (omega (arith, p.y)) e))))

-- A report with these parts.
abbrev report_of : List PtpContact → ℕ → ℕ → ℕ → PtpReport
report_of cs scan_time contact_count button = record {
  report_id = report_id_input;
  contacts = cs;
  scan_time = scan_time;
  contact_count = contact_count;
  button = button;
}

-- What the host finds in a report with five contacts.
found :
    (a b c d e : PtpContact) (scan_time contact_count button : ℕ)
    → read_report declared_fields
        (report_bytes (report_of (a ∷ b ∷ c ∷ d ∷ e ∷ []) scan_time contact_count button))
      ≡ some (
          found_readings a (
            found_readings b (
              found_readings c (
                found_readings d (
                  found_readings e (
                    reading 0x0D 0x56 0xFFFF (read_bits 0 16 (put_le16 scan_time []))
                    ∷ reading 0x0D 0x54 0x7F (read_bits 0 8 ((contact_count % 2 ^ 8) ∷ []))
                    ∷ reading 0x09 0x01 1 (read_bits 0 1 ((button % 2 ^ 8) ∷ []))
                    ∷ []))))))
found a b c d e scan_time contact_count button = refl

read_report_lem :
    (cs : List PtpContact) (scan_time contact_count button : ℕ)
    → length cs ≡ hid_max_contacts
    → All IsPtpContact cs
    → scan_time < 2 ^ 16
    → contact_count ≤ hid_max_contacts
    → button < 2
    → read_report declared_fields (report_bytes (report_of cs scan_time contact_count button))
      ≡ some (report_readings (report_of cs scan_time contact_count button))
read_report_lem (a ∷ b ∷ c ∷ d ∷ e ∷ []) scan_time contact_count button size
      (pa, (pb, (pc, (pd, (pe, t))))) hs hc hb =
    found a b c d e scan_time contact_count button
    ∙ ap some (
        found_readings_lem a pa (
          found_readings_lem b pb (
            found_readings_lem c pc (
              found_readings_lem d pd (
                found_readings_lem e pe (
                  read_next 0x0D 0x56 0xFFFF (omega arith) (
                    read_next 0x0D 0x54 0x7F (omega arith)
                      (read_next 0x09 0x01 1 (omega arith) refl))))))))
read_report_lem [] s k n size p hs hc hb = absurd (omega (arith, size))
read_report_lem (a ∷ []) s k n size p hs hc hb = absurd (omega (arith, size))
read_report_lem (a ∷ b ∷ []) s k n size p hs hc hb = absurd (omega (arith, size))
read_report_lem (a ∷ b ∷ c ∷ []) s k n size p hs hc hb = absurd (omega (arith, size))
read_report_lem (a ∷ b ∷ c ∷ d ∷ []) s k n size p hs hc hb = absurd (omega (arith, size))
read_report_lem (a ∷ b ∷ c ∷ d ∷ e ∷ f ∷ g) s k n size p hs hc hb = absurd (omega (arith, size))

length-contacts_bytes :
    (cs : List PtpContact) (rest : List ℕ)
    → length (contacts_bytes cs rest) ≡ 9 * length cs + length rest
length-contacts_bytes [] rest = omega arith
length-contacts_bytes (c ∷ cs) rest = omega (arith, length-contacts_bytes cs rest)

contacts-InLogicalRange :
    (cs : List PtpContact) (rest : List Reading)
    → All IsPtpContact cs
    → All InLogicalRange rest
    → All InLogicalRange (contacts_readings cs rest)
contacts-InLogicalRange [] rest h hr = hr
contacts-InLogicalRange (c ∷ cs) rest (p, h) hr = (
  omega arith,
  (omega arith, (omega (arith, p.contact_id), (p.x, (p.y, contacts-InLogicalRange cs rest h hr)))),
)

-- A host that was given the report descriptor reads, in the bytes of any report of the driver's format
-- whose scan time fits in 16 bits, exactly the fields of the structure: for each of the five contacts the
-- confidence and the tip switch of its flags, its identifier and its coordinates, then the scan time, the
-- contact count and the button. Every value is in the logical range that the descriptor gives it, and the
-- bytes are as many as the driver passes to the HID stack.
pub host_reads-report_bytes :
    (r : PtpReport)
    → IsPtpReport r
    → r.scan_time < 2 ^ 16
    → (host_reads report_descriptor (report_bytes r) ≡ some (report_readings r))
      × All InLogicalRange (report_readings r)
      × (length (report_bytes r) ≡ sizeof_ptp_report)
unfolding host_reads
host_reads-report_bytes r h hs = (
  ap (λ (id : ℕ). host_reads report_descriptor (report_bytes (record r { report_id = id })))
        h.report_id
      ∙ ap
          (λ (fields : Option (List Field)).
            read_by fields (report_bytes (record r { report_id = report_id_input })))
          parsed
      ∙ read_report_lem r.contacts r.scan_time r.contact_count r.button h.size h.contacts hs
          h.contact_count h.button,
  contacts-InLogicalRange r.contacts _ h.contacts
      (omega arith, (omega (arith, h.contact_count), (omega (arith, h.button), tt))),
  ap suc (length-contacts_bytes r.contacts _ ∙ omega (arith, h.size)),
)
