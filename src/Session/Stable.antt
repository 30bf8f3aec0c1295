-- ===== src/Session/Stable.antt =====
-- windows/receiver/TouchSession.cpp: which identifiers have a slot behind a frame, and that a contact
-- which stays keeps its slot.
use touchpad.Base.{
  ℕ, ◌≡◌, ◌∙◌, ap, sym, refl, ◌⊎◌, inl, inr, true, ◌||◌, ◌==◌, ltb, if◌then◌else◌, arith, List, [],
  ◌∷◌, length, Option, none, some, Bool-cases, bit_and,
}
use touchpad.Wire.Types.{Contact}
use touchpad.Ioctl.{hid_max_contacts}
use touchpad.Mtp1.Types.{Result, ok, err}
use touchpad.Mtp1.Message.{contains}
use touchpad.Mtp1.Round.{Result-cases}
use touchpad.Session.Types.{SlotMap, k_tip}
use touchpad.Session.Slots.{
  Assignment, find_slot, allocate_slot, assign_new, assign_found, assign_contact, next_assign,
  assign_contacts,
}

-- The identifiers of the contacts that touch.
abbrev pub touching : List Contact → List ℕ
touching [] = []
touching (c ∷ cs) = if bit_and c.flags k_tip == 0 then touching cs else c.identifier ∷ touching cs

pub Slot-cases : (o : Option ℕ) → ((k : ℕ) × (o ≡ some k)) ⊎ (o ≡ none)
Slot-cases none = inr refl
Slot-cases (some k) = inl (k, refl)

-- From one assignment to a later one, between which the identifiers `ids` have touched.
pub record Extends (ids : List ℕ) (a a' : Assignment) : Type 0 where
  pub keeps : (id k : ℕ) → find_slot id a.slots ≡ some k → find_slot id a'.slots ≡ some k
  pub present : (id : ℕ) → contains id a'.present ≡ contains id ids || contains id a.present
  pub found : (id : ℕ) → contains id ids ≡ true → (k : ℕ) × (find_slot id a'.slots ≡ some k)

-- A contact that touches has a slot already, or gets one in front of the others.
assign_found-slots :
    (c : Contact) (o : Option ℕ) (a a' : Assignment)
    → assign_found c o a ≡ (ok tt, a')
    → (a'.present ≡ a.present)
      × (((k : ℕ) × (o ≡ some k) × (a'.slots ≡ a.slots))
          ⊎ ((o ≡ none) × (k : ℕ) × (a'.slots ≡ (c.identifier, k) ∷ a.slots)))
unfolding assign_found assign_new
assign_found-slots c (some k) a a' e = (cc, inl (k, refl, cc))
assign_found-slots c none a a' e = elim (Bool-cases (ltb (length a.slots) hid_max_contacts)) [
  | inl room ↦ elim (Result-cases (allocate_slot a.slots)) [
    | inl (k, given) ↦
        let h : assign_new c (allocate_slot a.slots) a ≡ (ok tt, a') = ground (arith, room) in
        let h' : assign_new c (ok k) a ≡ (ok tt, a') = ap (λ r. assign_new c r a) (sym given) ∙ h in
        (cc, inr (refl, k, cc))
    | inr (x, given) ↦
        let h : assign_new c (allocate_slot a.slots) a ≡ (ok tt, a') = ground (arith, room) in
        let h' : assign_new c (err x) a ≡ (ok tt, a') =
          ap (λ r. assign_new c r a) (sym given) ∙ h in
        absurd (cc)
  ]
  | inr full ↦ absurd (ground (arith, full))
]

pub find_slot-same : (id k : ℕ) (s : SlotMap) → find_slot id ((id, k) ∷ s) ≡ some k
unfolding find_slot
find_slot-same id k s = ground arith

pub find_slot-new :
    (i id k j : ℕ) (s : SlotMap)
    → find_slot id s ≡ none
    → find_slot i s ≡ some j
    → find_slot i ((id, k) ∷ s) ≡ some j
unfolding find_slot
find_slot-new i id k j s n e = elim (Bool-cases (id == i)) [
  | inl same ↦ absurd (let h : id ≡ i = ground (arith, same) in cc)
  | inr other ↦ rw other e
]

-- The identifier `id` has touched, and the assignment has a slot for it.
touched-Extends :
    (id : ℕ) (a a' : Assignment)
    → a'.present ≡ id ∷ a.present
    → ((k : ℕ) × (find_slot id a.slots ≡ some k) × (a'.slots ≡ a.slots))
      ⊎ ((find_slot id a.slots ≡ none) × (k : ℕ) × (a'.slots ≡ (id, k) ∷ a.slots))
    → Extends (id ∷ []) a a'
touched-Extends id a a' p (inl (k, f, same)) = record {
  keeps = λ i j e. ap (find_slot i) same ∙ e;
  present = λ i. ap (contains i) p ∙ ground arith;
  found = λ i h. (k, ap (find_slot i) same ∙ ap (λ j. find_slot j a.slots) (ground (arith, h)) ∙ f);
}
touched-Extends id a a' p (inr (f, k, new)) = record {
  keeps = λ i j e. ap (find_slot i) new ∙ find_slot-new i id k j a.slots f e;
  present = λ i. ap (contains i) p ∙ ground arith;
  found = λ i h. (
    k,
    ap (find_slot i) new
        ∙ ap (λ j. find_slot j ((id, k) ∷ a.slots)) (ground (arith, h))
        ∙ find_slot-same id k a.slots,
  );
}

pub next_assign-ok :
    (r : Result (Unit {0}) × Assignment) (k : Assignment → Result (Unit {0}) × Assignment)
    (d : Assignment)
    → next_assign r k ≡ (ok tt, d)
    → (b : Assignment) × (r ≡ (ok tt, b)) × (k b ≡ (ok tt, d))
unfolding next_assign
next_assign-ok (ok u, a) k d e = (a, refl, e)
next_assign-ok (err x, a) k d e = absurd (cc)

pub assign_contact-Extends :
    (c : Contact) (a a' : Assignment)
    → assign_contact c a ≡ (ok tt, a')
    → Extends (touching (c ∷ [])) a a'
unfolding assign_contact
assign_contact-Extends c a a' e = elim (Bool-cases (bit_and c.flags k_tip == 0)) [
  | inl lifted ↦
      let h : a ≡ a' = ground (arith, lifted) in
      rw lifted (record {
        keeps = λ id k f. ap (λ b. find_slot id b.slots) (sym h) ∙ f;
        present = λ id. ap (λ b. contains id b.present) (sym h);
        found = λ id f. absurd (cc);
      })
  | inr touches ↦
      let b : Assignment = record a { present = c.identifier ∷ a.present } in
      let h : assign_found c (find_slot c.identifier a.slots) b ≡ (ok tt, a') =
        ground (arith, touches) in
      let (p, s) = assign_found-slots c (find_slot c.identifier a.slots) b a' h in
      rw touches (touched-Extends c.identifier a a' p s)
]

Extends-trans :
    (c : Contact) (cs : List Contact) (a b d : Assignment)
    → Extends (touching (c ∷ [])) a b
    → Extends (touching cs) b d
    → Extends (touching (c ∷ cs)) a d
Extends-trans c cs a b d x y = record {
  keeps = λ id k f. y.keeps id k (x.keeps id k f);
  present = λ id. ground (arith, x.present id, y.present id);
  found = λ id h. elim (Bool-cases (contains id (touching (c ∷ [])))) [
    | inl here ↦ let (k, f) = x.found id here in (k, y.keeps id k f)
    | inr there ↦ y.found id (ground (arith, h, there))
  ];
}

-- The first loop.
pub assign_contacts-Extends :
    (cs : List Contact) (a d : Assignment)
    → assign_contacts cs a ≡ (ok tt, d)
    → Extends (touching cs) a d
unfolding assign_contacts
assign_contacts-Extends [] a d e =
    let h : a ≡ d = cc in
    record {
      keeps = λ id k f. ap (λ b. find_slot id b.slots) (sym h) ∙ f;
      present = λ id. ap (λ b. contains id b.present) (sym h);
      found = λ id f. absurd (cc);
    }
assign_contacts-Extends (c ∷ cs) a d e =
    let (b, first, rest) = next_assign-ok (assign_contact c a) (assign_contacts cs) d e in
    Extends-trans c cs a b d (assign_contact-Extends c a b first)
      (assign_contacts-Extends cs b d rest)
