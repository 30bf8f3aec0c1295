-- ===== src/Session/Same.antt =====
-- windows/receiver/TouchSession.cpp: `AllocateSlot` and the size of `slots_` do not depend on the order
-- in which the entries of `slots_` stand.
use touchpad.Base.{
  ℕ, zero, suc, ◌+◌, ◌≡◌, ◌≢◌, ◌∙◌, ap, sym, refl, inl, inr, true, ◌==◌, arith, [], ◌∷◌, length,
  some, Bool-cases,
}
use touchpad.Ioctl.{hid_max_contacts}
use touchpad.Session.Types.{SlotMap}
use touchpad.Session.Slots.{find_slot, slot_used, allocate_from, allocate_slot}
use touchpad.Session.Frames.{erase_id}
use touchpad.Session.Assign.{GoodSlots, erase_id-GoodSlots}
use touchpad.Session.Leave.{find_slot-erase_eq, find_slot-erase_ne}
use touchpad.Session.Stable.{find_slot-same, find_slot-new}
use touchpad.Session.Owners.{find_slot-used}

-- Two maps with the same entries, which may stand in another order.
abbrev pub SameMap : SlotMap → SlotMap → Type 0
SameMap s t = (id : ℕ) → find_slot id s ≡ find_slot id t

-- A used slot is that of an identifier.
pub slot_used-owner :
    (k : ℕ) (s : SlotMap)
    → GoodSlots s
    → slot_used k s ≡ true
    → (id : ℕ) × (find_slot id s ≡ some k)
unfolding slot_used
slot_used-owner k [] g h = absurd (cc)
slot_used-owner k ((j, slot) ∷ s) (lt, free, unused, g) h = elim (Bool-cases (slot == k)) [
  | inl same ↦ let e : slot ≡ k = ground (arith, same) in (j, find_slot-same j slot s ∙ ap some e)
  | inr other ↦
      let (id, f) = slot_used-owner k s g (ground (arith, other, h)) in
      (id, find_slot-new id j slot k s free f)
]

pub slot_used-SameMap :
    (k : ℕ) (s t : SlotMap)
    → GoodSlots s
    → GoodSlots t
    → SameMap s t
    → slot_used k s ≡ slot_used k t
slot_used-SameMap k s t g h same = elim (Bool-cases (slot_used k s)) [
  | inl used ↦
      let (id, f) = slot_used-owner k s g used in
      used ∙ sym (find_slot-used id k t (sym (same id) ∙ f))
  | inr free ↦ elim (Bool-cases (slot_used k t)) [
    | inl used ↦
        let (id, f) = slot_used-owner k t h used in
        absurd (cc (find_slot-used id k s (same id ∙ f), free))
    | inr free' ↦ free ∙ sym free'
  ]
]

allocate_from-SameMap :
    (n c : ℕ) (s t : SlotMap)
    → ((k : ℕ) → slot_used k s ≡ slot_used k t)
    → allocate_from n c s ≡ allocate_from n c t
unfolding allocate_from
allocate_from-SameMap zero c s t h = refl
allocate_from-SameMap (suc n) c s t h =
    let rest = allocate_from-SameMap n (c + 1) s t h in rw (h c, rest) refl

pub allocate_slot-SameMap :
    (s t : SlotMap) → GoodSlots s → GoodSlots t → SameMap s t → allocate_slot s ≡ allocate_slot t
unfolding allocate_slot
allocate_slot-SameMap s t g h same =
    allocate_from-SameMap hid_max_contacts 0 s t (λ k. slot_used-SameMap k s t g h same)

length-erase_id :
    (id k : ℕ) (s : SlotMap) → find_slot id s ≡ some k → length s ≡ 1 + length (erase_id id s)
unfolding find_slot erase_id
length-erase_id id k [] e = absurd (cc)
length-erase_id id k ((j, slot) ∷ s) e = ground (arith, length-erase_id id k s)

pub erase_id-SameMap :
    (id : ℕ) (s t : SlotMap)
    → GoodSlots s
    → GoodSlots t
    → SameMap s t
    → SameMap (erase_id id s) (erase_id id t)
erase_id-SameMap id s t g h same i = elim (Bool-cases (i == id)) [
  | inl e ↦
      let e' : i ≡ id = ground (arith, e) in
      ap (λ j. find_slot j (erase_id id s)) e'
      ∙ find_slot-erase_eq id s g
      ∙ sym (find_slot-erase_eq id t h)
      ∙ ap (λ j. find_slot j (erase_id id t)) (sym e')
  | inr ne ↦
      let ne' : i ≢ id = ground (arith, ne) in
      find_slot-erase_ne i id s ne' ∙ same i ∙ sym (find_slot-erase_ne i id t ne')
]

erase_id-head : (id k : ℕ) (s : SlotMap) → erase_id id ((id, k) ∷ s) ≡ s
unfolding erase_id
erase_id-head id k s = ground arith

-- The size of the map.
pub length-SameMap : (s t : SlotMap) → GoodSlots s → GoodSlots t → SameMap s t → length s ≡ length t
length-SameMap [] [] g h same = refl
length-SameMap [] ((j, k) ∷ t) g h same =
    absurd (unfold find_slot in cc (same j, find_slot-same j k t))
length-SameMap ((id, k) ∷ s) t (lt, free, unused, g) h same =
    let rest : SameMap s (erase_id id t) = λ i.
      ap (find_slot i) (sym (erase_id-head id k s))
      ∙ erase_id-SameMap id ((id, k) ∷ s) t (lt, free, unused, g) h same i in
    let shorter = length-SameMap s (erase_id id t) g (erase_id-GoodSlots id t h).0 rest in
    omega (arith, shorter, length-erase_id id k t (sym (same id) ∙ find_slot-same id k s))

pub cons-SameMap : (id k : ℕ) (s t : SlotMap) → SameMap s t → SameMap ((id, k) ∷ s) ((id, k) ∷ t)
unfolding find_slot
cons-SameMap id k s t same i = rw (same i) refl
