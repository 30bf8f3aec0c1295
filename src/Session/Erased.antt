-- ===== src/Session/Erased.antt =====
-- windows/receiver/TouchSession.cpp: the loop of `Process` that erases what leaves does not depend on
-- the order in which the entries of `slots_` stand.
use touchpad.Base.{
  ℕ, ◌≡◌, ◌≢◌, ◌∙◌, ap, sym, refl, inl, inr, Bool, false, ◌==◌, if◌then◌else◌, arith, List, [], ◌∷◌,
  set, get_or, get_or-set_self, get_or-set_ne, Option, none, some, Bool-cases,
}
use touchpad.Mtp1.Message.{contains}
use touchpad.Session.Types.{SlotMap, SlotContacts}
use touchpad.Session.Slots.{find_slot, slot_used}
use touchpad.Session.Frames.{erase_id, erase_found, erase_leaving}
use touchpad.Session.Assign.{
  GoodSlots, GoodPair, erase_found-GoodPair, erase_leaving-GoodPair, erase_id-GoodSlots,
  slot_used-erase_id,
}
use touchpad.Session.Leave.{
  find_slot-erase_eq, find_slot-erase_ne, erase_found-ne, find_slot-erase_leaving,
  erase_leaving-forgets,
}
use touchpad.Session.Owners.{find_slot-used, find_slot-injective, find_slot-lt}
use touchpad.Session.Same.{SameMap, slot_used-owner, slot_used-SameMap}
use touchpad.Session.Walk.{get_or-ext}

slot_used-erase_self :
    (id k : ℕ) (s : SlotMap)
    → GoodSlots s
    → find_slot id s ≡ some k
    → slot_used k (erase_id id s) ≡ false
slot_used-erase_self id k s g e = elim (Bool-cases (slot_used k (erase_id id s))) [
  | inl used ↦
      let (j, f) = slot_used-owner k (erase_id id s) (erase_id-GoodSlots id s g).0 used in
      elim (Bool-cases (j == id)) [
        | inl same ↦
            let same' : j ≡ id = ground (arith, same) in
            absurd (cc (ap (λ i. find_slot i (erase_id id s)) same', find_slot-erase_eq id s g, f))
        | inr other ↦
            let ne : j ≢ id = ground (arith, other) in
            absurd (ne (find_slot-injective j id k s g (sym (find_slot-erase_ne j id s ne) ∙ f) e))
      ]
  | inr free ↦ free
]

erase_found-free :
    (k id : ℕ) (o : Option ℕ) (r : SlotMap × SlotContacts)
    → find_slot id r.0 ≡ o
    → slot_used k r.0 ≡ false
    → (slot_used k (erase_found id o r).0 ≡ false)
      × (get_or (erase_found id o r).1 k none ≡ get_or r.1 k none)
unfolding erase_found
erase_found-free k id none r e free = (free, refl)
erase_found-free k id (some l) (s, previous) e free = (
  slot_used-erase_id k id s free,
  get_or-set_ne previous l k none none (λ same. absurd (cc (find_slot-used id l s e, free, same))),
)

-- The fourth loop leaves a slot alone that nobody has,
erase_leaving-free :
    (k : ℕ) (leaving : List ℕ) (r : SlotMap × SlotContacts)
    → slot_used k r.0 ≡ false
    → get_or (erase_leaving leaving r).1 k none ≡ get_or r.1 k none
unfolding erase_leaving
erase_leaving-free k [] r free = refl
erase_leaving-free k (j ∷ leaving) r free =
    let (free', same) = erase_found-free k j (find_slot j r.0) r refl free in
    erase_leaving-free k leaving _ free' ∙ same

erase_found-other :
    (id j k : ℕ) (o : Option ℕ) (r : SlotMap × SlotContacts)
    → GoodSlots r.0
    → id ≢ j
    → find_slot id r.0 ≡ some k
    → find_slot j r.0 ≡ o
    → get_or (erase_found j o r).1 k none ≡ get_or r.1 k none
unfolding erase_found
erase_found-other id j k none r g ne e f = refl
erase_found-other id j k (some l) (s, previous) g ne e f =
    get_or-set_ne previous l k none none
      (λ same. ne (find_slot-injective id j k s g e (f ∙ ap some same)))

erase_found-owner :
    (id k : ℕ) (o : Option ℕ) (r : SlotMap × SlotContacts)
    → GoodPair r
    → find_slot id r.0 ≡ some k
    → o ≡ some k
    → (slot_used k (erase_found id o r).0 ≡ false) × (get_or (erase_found id o r).1 k none ≡ none)
unfolding erase_found
erase_found-owner id k none r g e h = absurd (cc)
erase_found-owner id k (some l) (s, previous) (g, n, p) e h =
    let same : l ≡ k = cc in
    (
      slot_used-erase_self id k s g e,
      ap (λ i. get_or (set previous i none) k none) same
          ∙ get_or-set_self previous k none none (omega (arith, find_slot-lt id k s g e, p.size)),
    )

-- and empties that of an identifier that leaves, and no other.
erase_leaving-owner :
    (id k : ℕ) (leaving : List ℕ) (r : SlotMap × SlotContacts)
    → GoodPair r
    → find_slot id r.0 ≡ some k
    → get_or (erase_leaving leaving r).1 k none
      ≡ (if contains id leaving then none else get_or r.1 k none)
unfolding erase_leaving
erase_leaving-owner id k [] r g e = refl
erase_leaving-owner id k (j ∷ leaving) r g e = elim (Bool-cases (id == j)) [
  | inl same ↦
      let here : j ≡ id = ground (arith, same) in
      let f : find_slot j r.0 ≡ some k = ap (λ i. find_slot i r.0) here ∙ e in
      let (free, emptied) = erase_found-owner j k (find_slot j r.0) r g f f in
      rw same (erase_leaving-free k leaving _ free ∙ emptied)
  | inr other ↦
      let ne : id ≢ j = ground (arith, other) in
      let kept = erase_found-other id j k (find_slot j r.0) r g.0 ne e refl in
      rw other (
        erase_leaving-owner id k leaving _ (erase_found-GoodPair j (find_slot j r.0) r g)
          (erase_found-ne id j (find_slot j r.0) r ne ∙ e)
        ∙ ap (λ o. if contains id leaving then none else o) kept)
]

-- The fourth loop, for two orders of the entries and of the identifiers that leave.
pub erase_leaving-SameMap :
    (l l' : List ℕ) (s t : SlotMap) (previous : SlotContacts)
    → ((id : ℕ) → contains id l ≡ contains id l')
    → GoodPair (s, previous)
    → GoodPair (t, previous)
    → SameMap s t
    → SameMap (erase_leaving l (s, previous)).0 (erase_leaving l' (t, previous)).0
      × ((erase_leaving l (s, previous)).1 ≡ (erase_leaving l' (t, previous)).1)
erase_leaving-SameMap l l' s t previous left g h same = (
  λ id. elim (Bool-cases (contains id l)) [
    | inl leaves ↦
        erase_leaving-forgets id l (s, previous) g leaves
        ∙ sym (erase_leaving-forgets id l' (t, previous) h (sym (left id) ∙ leaves))
    | inr stays ↦
        find_slot-erase_leaving id l (s, previous) stays
        ∙ same id
        ∙ sym (find_slot-erase_leaving id l' (t, previous) (sym (left id) ∙ stays))
  ],
  get_or-ext _ _
      ((erase_leaving-GoodPair l (s, previous) g).2.size
        ∙ sym (erase_leaving-GoodPair l' (t, previous) h).2.size)
      (λ k. elim (Bool-cases (slot_used k s)) [
        | inl used ↦
            let (id, f) = slot_used-owner k s g.0 used in
            erase_leaving-owner id k l (s, previous) g f
            ∙ ap (λ (b : Bool). if b then none else get_or previous k none) (left id)
            ∙ sym (erase_leaving-owner id k l' (t, previous) h (sym (same id) ∙ f))
        | inr free ↦
            erase_leaving-free k l (s, previous) free
            ∙ sym (
                erase_leaving-free k l' (t, previous)
                  (sym (slot_used-SameMap k s t g.0 h.0 same) ∙ free))
      ]),
)
