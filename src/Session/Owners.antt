-- ===== src/Session/Owners.antt =====
-- windows/receiver/TouchSession.cpp: whose the slots are, and how many tips the slots of a frame hold.
use touchpad.Base.{
  ℕ, zero, suc, ◌+◌, ◌^◌, ◌≤◌, ◌<◌, ◌≡◌, ◌∙◌, ap, sym, refl, ◌⊎◌, inl, inr, Bool, true, ◌==◌, ◌!=◌,
  ltb, if◌then◌else◌, arith, [], ◌∷◌, length, set, get_or, Option, none, some, Bool-cases, bit_and,
}
use touchpad.Wire.Types.{Contact}
use touchpad.Ioctl.{IoctlFrame, hid_max_contacts}
use touchpad.Mtp1.Types.{ok, report_capacity}
use touchpad.Mtp1.Valid.{>>=-ok}
use touchpad.Session.Lifecycle.{if-ok}
use touchpad.Session.Types.{SlotMap, SlotContacts, k_tip, not_tip}
use touchpad.Session.Slots.{find_slot, slot_used}
use touchpad.Session.Frames.{lift, report_slot, report_slots}
use touchpad.Session.Assign.{GoodSlots}

-- A slot that an identifier has is used.
pub find_slot-used : (id k : ℕ) (s : SlotMap) → find_slot id s ≡ some k → slot_used k s ≡ true
unfolding find_slot slot_used
find_slot-used id k [] e = absurd (cc)
find_slot-used id k ((j, slot) ∷ s) e = elim (Bool-cases (j == id)) [
  | inl same ↦ ground (arith, same, e)
  | inr other ↦ ground (arith, other, e, find_slot-used id k s)
]

-- The entry of the map in front.
pub find_slot-cases :
    (id k j slot : ℕ) (s : SlotMap)
    → find_slot id ((j, slot) ∷ s) ≡ some k
    → ((j ≡ id) × (slot ≡ k)) ⊎ (find_slot id s ≡ some k)
unfolding find_slot
find_slot-cases id k j slot s e = elim (Bool-cases (j == id)) [
  | inl same ↦ inl (ground (arith, same), ground (arith, same, e))
  | inr other ↦ inr (ground (arith, other, e))
]

-- No two identifiers have the same slot.
pub find_slot-injective :
    (i j k : ℕ) (s : SlotMap)
    → GoodSlots s
    → find_slot i s ≡ some k
    → find_slot j s ≡ some k
    → i ≡ j
find_slot-injective i j k [] g e f = absurd (unfold find_slot in cc)
find_slot-injective i j k ((id, slot) ∷ s) (lt, free, unused, g) e f =
    elim (find_slot-cases i k id slot s e) [
      | inl (a, b) ↦ elim (find_slot-cases j k id slot s f) [
        | inl (c, d) ↦ sym a ∙ c
        | inr d ↦ absurd (cc (find_slot-used j k s d, unused, b))
      ]
      | inr b ↦ elim (find_slot-cases j k id slot s f) [
        | inl (c, d) ↦ absurd (cc (find_slot-used i k s b, unused, d))
        | inr d ↦ find_slot-injective i j k s g b d
      ]
    ]

pub find_slot-lt :
    (id k : ℕ) (s : SlotMap) → GoodSlots s → find_slot id s ≡ some k → k < hid_max_contacts
find_slot-lt id k [] g e = absurd (unfold find_slot in cc)
find_slot-lt id k ((j, slot) ∷ s) (lt, free, unused, g) e = elim (find_slot-cases id k j slot s e) [
  | inl (a, b) ↦ omega (arith, lt, b)
  | inr f ↦ find_slot-lt id k s g f
]

-- A contact whose tip is down.
abbrev pub touches : Contact → Bool
touches c = bit_and c.flags k_tip != 0

abbrev pub tip_of : Option Contact → ℕ
tip_of none = 0
tip_of (some c) = if touches c then 1 else 0

-- The number of tips in the slots.
abbrev pub tips : SlotContacts → ℕ
tips [] = 0
tips (o ∷ cs) = tip_of o + tips cs

-- A write to a slot that holds no tip.
pub tips-set :
    (cs : SlotContacts) (k : ℕ) (o : Option Contact)
    → k < length cs
    → tip_of (get_or cs k none) ≡ 0
    → tips (set cs k o) ≡ tip_of o + tips cs
tips-set [] k o h e = absurd (omega (arith, h))
tips-set (c ∷ cs) zero o h e = omega (arith, e)
tips-set (c ∷ cs) (suc k) o h e = omega (arith, tips-set cs k o (omega (arith, h)) e)

pub tips-le : (cs : SlotContacts) → tips cs ≤ length cs
tips-le [] = omega arith
tips-le (none ∷ cs) = omega (arith, tips-le cs)
tips-le (some c ∷ cs) = ground (arith, tips-le cs)

-- A tip that is cleared is none.
lift_tip : (f : ℕ) → f < 8 → bit_and (bit_and f not_tip) k_tip ≡ 0
lift_tip zero h = refl
lift_tip (suc zero) h = refl
lift_tip (suc (suc zero)) h = refl
lift_tip (suc (suc (suc zero))) h = refl
lift_tip (suc (suc (suc (suc zero)))) h = refl
lift_tip (suc (suc (suc (suc (suc zero))))) h = refl
lift_tip (suc (suc (suc (suc (suc (suc zero)))))) h = refl
lift_tip (suc (suc (suc (suc (suc (suc (suc zero))))))) h = refl
lift_tip (suc (suc (suc (suc (suc (suc (suc (suc f)))))))) h = absurd (omega arith)

pub tip_of-lift : (c : Contact) → c.flags < 8 → tip_of (some (lift c)) ≡ 0
tip_of-lift c h = rw (lift_tip c.flags h) refl

-- The report counts the tips of its slots.
report_slot-tip :
    (slot : ℕ) (o : Option Contact) (out out' : IoctlFrame)
    → report_slot slot o out ≡ ok out'
    → out.active_contact_count + tip_of o < 2 ^ 8
    → out'.active_contact_count ≡ out.active_contact_count + tip_of o
unfolding report_slot
report_slot-tip slot none out out' e h =
    let same : out ≡ out' = cc in
    omega (arith, ap (λ (f : IoctlFrame). f.active_contact_count) same)
report_slot-tip slot (some c) out out' e h =
    let entry = if-ok (ltb out.report_contact_count hid_max_contacts) _ report_capacity e in
    let count = ap (λ (f : IoctlFrame). f.active_contact_count) entry in
    elim (Bool-cases (touches c)) [
      | inl down ↦ ground (arith, count, down, h)
      | inr up ↦ ground (arith, count, up, h)
    ]

pub report_slots-tips :
    (slot : ℕ) (cs : SlotContacts) (out out' : IoctlFrame)
    → report_slots slot cs out ≡ ok out'
    → out.active_contact_count + tips cs < 2 ^ 8
    → out'.active_contact_count ≡ out.active_contact_count + tips cs
unfolding report_slots
report_slots-tips slot [] out out' e h =
    let same : out ≡ out' = cc in
    omega (arith, ap (λ (f : IoctlFrame). f.active_contact_count) same)
report_slots-tips slot (o ∷ cs) out out' e h =
    let (mid, e₁, e₂) = >>=-ok (report_slot slot o out) _ e in
    let first = report_slot-tip slot o out mid e₁ (omega (arith, h)) in
    omega (arith, first, report_slots-tips (slot + 1) cs mid out' e₂ (omega (arith, h, first)))
