-- ===== src/Session/Leave.antt =====
-- windows/receiver/TouchSession.cpp: which identifiers the later loops of `Process` forget.
use touchpad.Base.{
  ℕ, ◌≡◌, ◌≢◌, ◌∙◌, ap, sym, refl, inl, inr, Bool, true, false, not, ◌&&◌, ◌||◌, ◌==◌,
  if◌then◌else◌, arith, List, [], ◌∷◌, get_or, Option, none, some, Bool-cases,
}
use touchpad.Mtp1.Message.{contains}
use touchpad.Session.Types.{SlotMap, SlotContacts}
use touchpad.Session.Slots.{find_slot}
use touchpad.Session.Frames.{lift_slot, leave_slots, erase_id, erase_found, erase_leaving}
use touchpad.Session.Assign.{GoodSlots, GoodPair, find_slot-erase_id, erase_found-GoodPair}

-- The identifier is a key of the map.
abbrev pub mapped : ℕ → SlotMap → Bool
mapped id [] = false
mapped id ((j, k) ∷ s) = id == j || mapped id s

pub find_slot-mapped : (id : ℕ) (s : SlotMap) → mapped id s ≡ false → find_slot id s ≡ none
unfolding find_slot
find_slot-mapped id [] h = refl
find_slot-mapped id ((j, k) ∷ s) h = ground (arith, find_slot-mapped id s)

contains-if :
    (id j : ℕ) (b : Bool) (r : List ℕ × SlotContacts) (next : SlotContacts)
    → contains id (if b then r else (j ∷ r.0, next)).0 ≡ not b && id == j || contains id r.0
contains-if id j true r next = refl
contains-if id j false r next = refl

-- The keys that are not present, one more in front.
collect_one :
    (id j : ℕ) (present : List ℕ) (m c : Bool)
    → m && not (contains id present) || (not (contains j present) && id == j || c)
      ≡ (id == j || m) && not (contains id present) || c
collect_one id j present m c = elim (Bool-cases (id == j)) [
  | inl same ↦
      let e : contains id present ≡ contains j present =
        ap (λ i. contains i present) (ground (arith, same)) in
      ground (arith, e, same)
  | inr other ↦ ground (arith, other)
]

-- The second loop collects the keys that are not present.
pub contains-leave_slots :
    (id : ℕ) (present : List ℕ) (previous : SlotContacts) (s : SlotMap) (r : List ℕ × SlotContacts)
    → contains id (leave_slots present previous s r).0
      ≡ mapped id s && not (contains id present) || contains id r.0
unfolding leave_slots
contains-leave_slots id present previous [] r = refl
contains-leave_slots id present previous ((j, k) ∷ s) r =
    contains-leave_slots id present previous s _
    ∙ ap (λ c. mapped id s && not (contains id present) || c)
        (contains-if id j (contains j present) r (lift_slot k (get_or previous k none) r.1))
    ∙ collect_one id j present (mapped id s) (contains id r.0)

pub find_slot-erase_ne :
    (i id : ℕ) (s : SlotMap) → i ≢ id → find_slot i (erase_id id s) ≡ find_slot i s
unfolding find_slot erase_id
find_slot-erase_ne i id [] ne = refl
find_slot-erase_ne i id ((j, k) ∷ s) ne = ground (arith, find_slot-erase_ne i id s ne)

pub find_slot-erase_eq : (id : ℕ) (s : SlotMap) → GoodSlots s → find_slot id (erase_id id s) ≡ none
unfolding find_slot erase_id
find_slot-erase_eq id [] g = refl
find_slot-erase_eq id ((j, k) ∷ s) (lt, f, u, g) = elim (Bool-cases (j == id)) [
  | inl same ↦
      rw same (let h : j ≡ id = ground (arith, same) in ap (λ i. find_slot i s) (sym h) ∙ f)
  | inr other ↦ rw other (rw other (find_slot-erase_eq id s g))
]

pub erase_found-ne :
    (i id : ℕ) (o : Option ℕ) (r : SlotMap × SlotContacts)
    → i ≢ id
    → find_slot i (erase_found id o r).0 ≡ find_slot i r.0
unfolding erase_found
erase_found-ne i id none r ne = refl
erase_found-ne i id (some k) (s, previous) ne = find_slot-erase_ne i id s ne

-- The fourth loop keeps the slots of the identifiers that do not leave,
pub find_slot-erase_leaving :
    (id : ℕ) (leaving : List ℕ) (r : SlotMap × SlotContacts)
    → contains id leaving ≡ false
    → find_slot id (erase_leaving leaving r).0 ≡ find_slot id r.0
unfolding erase_leaving
find_slot-erase_leaving id [] r h = refl
find_slot-erase_leaving id (j ∷ leaving) r h =
    find_slot-erase_leaving id leaving (erase_found j (find_slot j r.0) r) (ground (arith, h))
    ∙ erase_found-ne id j (find_slot j r.0) r (ground (arith, h))

erase_found-none :
    (i id : ℕ) (o : Option ℕ) (r : SlotMap × SlotContacts)
    → find_slot i r.0 ≡ none
    → find_slot i (erase_found id o r).0 ≡ none
unfolding erase_found
erase_found-none i id none r h = h
erase_found-none i id (some k) (s, previous) h = find_slot-erase_id i id s h

erase_leaving-none :
    (id : ℕ) (leaving : List ℕ) (r : SlotMap × SlotContacts)
    → find_slot id r.0 ≡ none
    → find_slot id (erase_leaving leaving r).0 ≡ none
unfolding erase_leaving
erase_leaving-none id [] r h = h
erase_leaving-none id (j ∷ leaving) r h =
    erase_leaving-none id leaving (erase_found j (find_slot j r.0) r)
      (erase_found-none id j (find_slot j r.0) r h)

erase_found_self :
    (id : ℕ) (o : Option ℕ) (r : SlotMap × SlotContacts)
    → GoodPair r
    → find_slot id r.0 ≡ o
    → find_slot id (erase_found id o r).0 ≡ none
unfolding erase_found
erase_found_self id none r g e = e
erase_found_self id (some k) (s, previous) g e = find_slot-erase_eq id s g.0

-- and forgets the others.
pub erase_leaving-forgets :
    (id : ℕ) (leaving : List ℕ) (r : SlotMap × SlotContacts)
    → GoodPair r
    → contains id leaving ≡ true
    → find_slot id (erase_leaving leaving r).0 ≡ none
unfolding erase_leaving
erase_leaving-forgets id [] r g h = absurd (cc)
erase_leaving-forgets id (j ∷ leaving) r g h = elim (Bool-cases (id == j)) [
  | inl same ↦
      let e : j ≡ id = ground (arith, same) in
      erase_leaving-none id leaving (erase_found j (find_slot j r.0) r) (
        ap (λ i. find_slot i (erase_found j (find_slot j r.0) r).0) (sym e)
        ∙ erase_found_self j (find_slot j r.0) r g refl)
  | inr other ↦
      erase_leaving-forgets id leaving (erase_found j (find_slot j r.0) r)
        (erase_found-GoodPair j (find_slot j r.0) r g) (ground (arith, h, other))
]
