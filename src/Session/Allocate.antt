-- ===== src/Session/Allocate.antt =====
-- windows/receiver/TouchSession.cpp: `AllocateSlot` gives the lowest free slot.
use touchpad.Base.{
  ℕ, zero, suc, ◌+◌, ◌≤◌, ◌<◌, ◌≡◌, ◌≢◌, refl, inl, inr, true, false, ◌==◌, if◌then◌else◌, arith,
  [], ◌∷◌, length, Bool-cases,
}
use touchpad.Ioctl.{hid_max_contacts}
use touchpad.Mtp1.Types.{Error, ok, err}
use touchpad.Mtp1.Round.{Result-cases}
use touchpad.Session.Types.{SlotMap}
use touchpad.Session.Slots.{slot_used, allocate_from, allocate_slot}

-- The entries that have another slot.
others : ℕ → SlotMap → SlotMap
others c [] = []
others c ((id, slot) ∷ s) = let rest = others c s in if slot == c then rest else (id, slot) ∷ rest

slot_used-others : (k c : ℕ) (s : SlotMap) → k ≢ c → slot_used k (others c s) ≡ slot_used k s
unfolding slot_used others
slot_used-others k c [] ne = refl
slot_used-others k c ((id, slot) ∷ s) ne = ground (arith, slot_used-others k c s ne)

length-others-le : (c : ℕ) (s : SlotMap) → length (others c s) ≤ length s
unfolding others
length-others-le c [] = omega arith
length-others-le c ((id, slot) ∷ s) = ground (arith, length-others-le c s)

length-others : (c : ℕ) (s : SlotMap) → slot_used c s ≡ true → length (others c s) < length s
unfolding slot_used others
length-others c [] h = cc
length-others c ((id, slot) ∷ s) h = ground (arith, length-others c s, length-others-le c s)

allocate_from-others :
    (n k c : ℕ) (s : SlotMap) → c < k → allocate_from n k (others c s) ≡ allocate_from n k s
unfolding allocate_from
allocate_from-others zero k c s h = refl
allocate_from-others (suc n) k c s h =
    ground (arith, slot_used-others k c s, allocate_from-others n (k + 1) c s)

-- A search that fails has found each of its candidates taken, so there are as many entries.
allocate_from-err : (n c : ℕ) (s : SlotMap) (e : Error) → allocate_from n c s ≡ err e → n ≤ length s
unfolding allocate_from
allocate_from-err zero c s e h = omega arith
allocate_from-err (suc n) c s e h = ground (
  arith,
  length-others c s,
  allocate_from-others n (c + 1) c s,
  allocate_from-err n (c + 1) (others c s) e,
)

-- The slot is free, and every lower candidate is taken.
pub record LowestFree (c k : ℕ) (s : SlotMap) : Type 0 where
  pub from : c ≤ k
  pub free : slot_used k s ≡ false
  pub lower : (j : ℕ) → c ≤ j → j < k → slot_used j s ≡ true

allocate_from-ok :
    (n c : ℕ) (s : SlotMap) (k : ℕ) → allocate_from n c s ≡ ok k → LowestFree c k s × (k < c + n)
unfolding allocate_from
allocate_from-ok zero c s k h = absurd (cc)
allocate_from-ok (suc n) c s k h = elim (Bool-cases (slot_used c s)) [
  | inl used ↦
      let next : allocate_from n (c + 1) s ≡ ok k = ground (arith, used) in
      let (l, lt) = allocate_from-ok n (c + 1) s k next in
      (
        record {
          from = omega (arith, l.from);
          free = l.free;
          lower = λ j h₁ h₂. elim (Bool-cases (j == c)) [
            | inl e ↦ ground (arith, used, e)
            | inr ne ↦ l.lower j (ground (arith, ne)) h₂
          ];
        },
        omega arith,
      )
  | inr free ↦
      let e : c ≡ k = ground (arith, free) in
      (
        record {
          from = omega arith;
          free = ground (arith, free);
          lower = λ j h₁ h₂. absurd (omega arith);
        },
        omega arith,
      )
]

-- With fewer than five entries, whatever they are, the allocation does not throw: it gives the lowest
-- slot below five that no entry has.
pub allocate_slot_lowest :
    (s : SlotMap)
    → length s < hid_max_contacts
    → (k : ℕ) × (allocate_slot s ≡ ok k) × (k < hid_max_contacts) × LowestFree 0 k s
unfolding allocate_slot
allocate_slot_lowest s h = elim (Result-cases (allocate_from hid_max_contacts 0 s)) [
  | inl (k, e) ↦ let (l, lt) = allocate_from-ok hid_max_contacts 0 s k e in (k, e, omega arith, l)
  | inr (x, e) ↦ absurd (omega (arith, allocate_from-err hid_max_contacts 0 s x e))
]
