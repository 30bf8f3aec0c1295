-- ===== src/Driver/Entries.antt =====
-- windows/driver/Driver.c: the contacts that `SubmitIoctlFrame` takes and the entries that it makes of
-- them, said without its tests.
use Prim.Native.Nat.{min}
use touchpad.Base.{
  subst, ℕ, zero, suc, ◌+◌, ◌*◌, ◌/◌, ◌%◌, ◌^◌, ◌≤◌, ◌<◌, ◌≡◌, ◌≢◌, ◌∙◌, sym, refl, ◌⊎◌, inl, inr,
  arith, Bool, true, false, ◌==◌, if◌then◌else◌, get_or, bit_and, bit_or, Bool-cases,
}
use touchpad.Base.{bit_and_step, bit_and-one, and_low_mask}
use touchpad.Ioctl.{
  IoctlContact, IoctlFrame, zero_ioctl_contact, hid_max_contacts, coordinate_logical_max,
}
use touchpad.Driver.Types.{PtpContact, zero_ptp_contact}
use touchpad.Driver.Submit.{bad_contact, ptp_contact}
use touchpad.Driver.Reports.{EntriesInRange, entry_of}
use touchpad.Driver.Accepts.{entries_of}

-- A contact with a slot of the report, no flag but the three, and nothing in the reserved byte.
pub record IsKnownContact (c : IoctlContact) : Type 0 where
  pub slot : c.slot < hid_max_contacts
  pub flags : c.flags % 2 ^ 8 < 8
  pub reserved : c.reserved ≡ 0

-- The contact at a place of a frame.
abbrev pub contact_at : IoctlFrame → ℕ → IoctlContact
contact_at f i = get_or f.contacts i zero_ioctl_contact

-- The entry of a report for a contact: confidence at bit 0, tip at bit 1, coordinates up to the maximum.
pub record Packs (c : IoctlContact) (e : PtpContact) : Type 0 where
  pub flags : e.flags ≡ c.flags / 4 % 2 + c.flags / 2 % 2 * 2
  pub contact_id : e.contact_id ≡ c.slot
  pub x : e.x ≡ min c.x coordinate_logical_max
  pub y : e.y ≡ min c.y coordinate_logical_max

-- The entry for slot `k` is that of the last of the contacts from `i` up to `n` with the slot; it is `d`
-- when there is none.
abbrev pub ShowsLast : ℕ → (ℕ → IoctlContact) → ℕ → ℕ → PtpContact → PtpContact → Type 0
ShowsLast k at i n d e =
    ((j : ℕ) × (i ≤ j)
      × (j < n)
      × ((at j).slot ≡ k)
      × ((l : ℕ) → j < l → l < n → (at l).slot ≢ k)
      × Packs (at j) e)
    ⊎ (((l : ℕ) → i ≤ l → l < n → (at l).slot ≢ k) × (e ≡ d))

-- Single bits and the masks of unknown flags, as arithmetic.
pub and_2 : (v : ℕ) → bit_and v 2 ≡ v / 2 % 2 * 2
and_2 v = omega (arith, bit_and_step v 2, bit_and-one (v / 2))

and_4 : (v : ℕ) → bit_and v 4 ≡ v / 4 % 2 * 4
and_4 v = omega (arith, bit_and_step v 4, and_2 (v / 2))

and_unknown : (v : ℕ) → bit_and v 0xf8 ≡ v / 8 % 2 ^ 5 * 8
and_unknown v = omega (
  arith,
  bit_and_step v 0xf8,
  bit_and_step (v / 2) 0x7c,
  bit_and_step (v / 2 / 2) 0x3e,
  and_low_mask 5 (v / 2 / 2 / 2),
)

known_contact : (c : IoctlContact) → bad_contact c ≡ false → IsKnownContact c
known_contact c h = record {
  slot = ground (arith, h);
  flags = ground (arith, h, and_unknown c.flags);
  reserved = ground (arith, h);
}

known_contact_passes : (c : IoctlContact) → IsKnownContact c → bad_contact c ≡ false
known_contact_passes c h = ground (arith, h.slot, h.reserved, h.flags, and_unknown c.flags)

bits :
    (p q : Bool)
    → bit_or (if p then 1 else 0) ((if q then 1 else 0) * 2 % 2 ^ 8)
      ≡ (if p then 1 else 0) + (if q then 1 else 0) * 2
bits true true = refl
bits true false = refl
bits false true = refl
bits false false = refl

ptp_contact-Packs : (c : IoctlContact) → Packs c (ptp_contact c)
unfolding ptp_contact
ptp_contact-Packs c = record {
  flags = bits _ _ ∙ ground (arith, and_4 c.flags, and_2 c.flags);
  contact_id = refl;
  x = ground arith;
  y = ground arith;
}

entry_of-ShowsLast :
    (k m i : ℕ) (f : IoctlFrame) (d : PtpContact)
    → ShowsLast k (contact_at f) i (i + m) d (entry_of k m i f.contacts d)
entry_of-ShowsLast k zero i f d = inr ((λ l h h'. absurd (omega arith)), refl)
entry_of-ShowsLast k (suc m) i f d =
    let source = contact_at f i in
    elim (Bool-cases (source.slot == k)) [
      | inl same ↦ elim (entry_of-ShowsLast k m (i + 1) f (ptp_contact source)) [
        | inl (j, from, below, its, last, packs) ↦ rw same (
            inl (
              j,
              omega (arith, from),
              omega (arith, below),
              its,
              (λ l h h'. last l h (omega (arith, h'))),
              packs,
            ))
        | inr (nobody, e) ↦ rw same (
            inl (
              i,
              omega arith,
              omega arith,
              ground (arith, same),
              (λ l h h'. nobody l (omega (arith, h)) (omega (arith, h'))),
              subst (Packs source) (sym e) (ptp_contact-Packs source),
            ))
      ]
      | inr other ↦ elim (entry_of-ShowsLast k m (i + 1) f d) [
        | inl (j, from, below, its, last, packs) ↦ rw other (
            inl (
              j,
              omega (arith, from),
              omega (arith, below),
              its,
              (λ l h h'. last l h (omega (arith, h'))),
              packs,
            ))
        | inr (nobody, e) ↦ rw other (
            inr (
              (λ l h h'. elim (Bool-cases (i == l)) [
                | inl here ↦
                    let e' : i ≡ l = ground (arith, here) in
                    subst (λ q. (contact_at f q).slot ≢ k) e' (ground (arith, other))
                | inr behind ↦ nobody l (ground (arith, h, behind)) (omega (arith, h'))
              ]),
              e,
            ))
      ]
    ]

from_first :
    (f : IoctlFrame) (k : ℕ)
    → ShowsLast k
        (contact_at f)
        0
        f.report_contact_count
        zero_ptp_contact
        (entry_of k f.report_contact_count 0 f.contacts zero_ptp_contact)
from_first f k =
    let n = f.report_contact_count in
    let end : 0 + n ≡ n = omega arith in
    subst
      (λ m.
        ShowsLast k (contact_at f) 0 m zero_ptp_contact
          (entry_of k n 0 f.contacts zero_ptp_contact))
      end (entry_of-ShowsLast k n 0 f zero_ptp_contact)

-- The entries of the report, slot by slot.
pub entries_of-ShowsLast :
    (f : IoctlFrame) (k : ℕ)
    → k < hid_max_contacts
    → ShowsLast k
        (contact_at f)
        0
        f.report_contact_count
        zero_ptp_contact
        (get_or (entries_of f) k zero_ptp_contact)
entries_of-ShowsLast f zero h = from_first f 0
entries_of-ShowsLast f (suc zero) h = from_first f 1
entries_of-ShowsLast f (suc (suc zero)) h = from_first f 2
entries_of-ShowsLast f (suc (suc (suc zero))) h = from_first f 3
entries_of-ShowsLast f (suc (suc (suc (suc zero)))) h = from_first f 4
entries_of-ShowsLast f (suc (suc (suc (suc (suc k))))) h = absurd (omega arith)

pub entries_known :
    (f : IoctlFrame) (m i : ℕ)
    → EntriesInRange m i f.contacts
    → (j : ℕ) → i ≤ j
    → j < i + m
    → IsKnownContact (contact_at f j)
entries_known f zero i h j from below = absurd (omega arith)
entries_known f (suc m) i (good, h) j from below = elim (Bool-cases (i == j)) [
  | inl here ↦
      let e : i ≡ j = ground (arith, here) in
      subst (λ q. IsKnownContact (contact_at f q)) e (known_contact (contact_at f i) good)
  | inr behind ↦ entries_known f m (i + 1) h j (ground (arith, from, behind)) (omega (arith, below))
]

pub entries_pass :
    (f : IoctlFrame) (m i : ℕ)
    → ((j : ℕ) → i ≤ j → j < i + m → IsKnownContact (contact_at f j))
    → EntriesInRange m i f.contacts
entries_pass f zero i h = tt
entries_pass f (suc m) i h = (
  known_contact_passes (contact_at f i) (h i (omega arith) (omega arith)),
  entries_pass f m (i + 1) (λ j from below. h j (omega (arith, from)) (omega (arith, below))),
)
