-- ===== src/Session/Active.antt =====
-- windows/receiver/TouchSession.cpp: the tips in the slots behind the first loop of `Process`.
use touchpad.Base.{
  ℕ, ◌+◌, ◌≡◌, ◌≢◌, ◌∙◌, ap, sym, refl, subst, ◌⊎◌, inl, inr, true, false, ◌==◌, ltb, arith, List,
  [], ◌∷◌, length, set, get_or, get_or-set_ne, Option, none, some, Bool-cases, bit_and, All,
}
use touchpad.Wire.Types.{Contact}
use touchpad.Ioctl.{hid_max_contacts}
use touchpad.Mtp1.Types.{Result, ok, err}
use touchpad.Mtp1.Message.{contains}
use touchpad.Mtp1.Round.{Result-cases}
use touchpad.Mtp1.Valid.{FreshIds}
use touchpad.Session.Types.{SlotContacts, k_tip}
use touchpad.Session.Slots.{
  Assignment, find_slot, allocate_slot, assign_new, assign_found, assign_contact, assign_contacts,
}
use touchpad.Session.Assign.{GoodAssignment, KnownContact, assign_contact-GoodResult}
use touchpad.Session.Stable.{touching, assign_contact-Extends, next_assign-ok, find_slot-same}
use touchpad.Session.Owners.{find_slot-injective, find_slot-lt, tip_of, tips, tips-set}

-- A contact that touches is written to the slot that it has then.
assign_found-next :
    (c : Contact) (o : Option ℕ) (a a' : Assignment)
    → find_slot c.identifier a.slots ≡ o
    → assign_found c o a ≡ (ok tt, a')
    → (k : ℕ) × (find_slot c.identifier a'.slots ≡ some k)
      × (a'.next_contacts ≡ set a.next_contacts k (some c))
      × (a'.present ≡ a.present)
unfolding assign_found assign_new
assign_found-next c (some k) a a' f e = (
  k,
  ap (λ (b : Result (Unit {0}) × Assignment). find_slot c.identifier b.1.slots) (sym e) ∙ f,
  ap (λ (b : Result (Unit {0}) × Assignment). b.1.next_contacts) (sym e),
  ap (λ (b : Result (Unit {0}) × Assignment). b.1.present) (sym e),
)
assign_found-next c none a a' f e = elim (Bool-cases (ltb (length a.slots) hid_max_contacts)) [
  | inl room ↦ elim (Result-cases (allocate_slot a.slots)) [
    | inl (k, given) ↦
        let h : assign_new c (allocate_slot a.slots) a ≡ (ok tt, a') = ground (arith, room) in
        let h' : assign_new c (ok k) a ≡ (ok tt, a') = ap (λ r. assign_new c r a) (sym given) ∙ h in
        (
          k,
          ap (λ (b : Result (Unit {0}) × Assignment). find_slot c.identifier b.1.slots) (sym h')
              ∙ find_slot-same c.identifier k a.slots,
          ap (λ (b : Result (Unit {0}) × Assignment). b.1.next_contacts) (sym h'),
          ap (λ (b : Result (Unit {0}) × Assignment). b.1.present) (sym h'),
        )
    | inr (x, given) ↦
        let h : assign_new c (allocate_slot a.slots) a ≡ (ok tt, a') = ground (arith, room) in
        let h' : assign_new c (err x) a ≡ (ok tt, a') =
          ap (λ r. assign_new c r a) (sym given) ∙ h in
        absurd (cc)
  ]
  | inr full ↦ absurd (ground (arith, full))
]

-- A slot that is not free is that of an identifier that is present.
abbrev pub Owned : ℕ → Assignment → Type 0
Owned k a =
    (get_or a.next_contacts k none ≡ none)
    ⊎ ((id : ℕ) × (contains id a.present ≡ true) × (find_slot id a.slots ≡ some k))

-- Between two rounds of the first loop, when the contacts `seen` have gone by.
pub record Tracked (seen : List ℕ) (a : Assignment) : Type 0 where
  pub good : GoodAssignment a
  pub present : (id : ℕ) → contains id a.present ≡ true → contains id seen ≡ true
  pub owned : (k : ℕ) → Owned k a

-- A touching contact gets a slot that holds no tip, and holds it then.
touched-Tracked :
    (c : Contact) (seen : List ℕ) (a a' : Assignment) (k : ℕ)
    → Tracked seen a
    → contains c.identifier seen ≡ false
    → GoodAssignment a'
    → ((id j : ℕ) → find_slot id a.slots ≡ some j → find_slot id a'.slots ≡ some j)
    → find_slot c.identifier a'.slots ≡ some k
    → a'.next_contacts ≡ set a.next_contacts k (some c)
    → a'.present ≡ c.identifier ∷ a.present
    → Tracked (c.identifier ∷ seen) a'
      × (tips a'.next_contacts ≡ tip_of (some c) + tips a.next_contacts)
touched-Tracked c seen a a' k t fresh g keeps f next present = (
  record {
    good = g;
    present = λ id h.
        let old : contains id (c.identifier ∷ a.present) ≡ true =
          ap (contains id) (sym present) ∙ h in
        elim (Bool-cases (id == c.identifier)) [
          | inl same ↦ rw same refl
          | inr other ↦ rw other (t.present id (ground (arith, old, other)))
        ];
    owned = λ j. elim (Bool-cases (k == j)) [
      | inl same ↦
          let e : k ≡ j = ground (arith, same) in
          inr (c.identifier, ap (contains c.identifier) present ∙ ground arith, f ∙ ap some e)
      | inr other ↦
          let ne : k ≢ j = ground (arith, other) in
          elim (t.owned j) [
            | inl free ↦ inl (
                ap (λ (l : SlotContacts). get_or l j none) next
                ∙ get_or-set_ne a.next_contacts k j (some c) none ne
                ∙ free)
            | inr (id, here, slot) ↦
                inr (id, ap (contains id) present ∙ ground (arith, here), keeps id j slot)
          ]
    ];
  },
  ap tips next
      ∙ tips-set a.next_contacts k (some c)
          (omega (arith, find_slot-lt c.identifier k a'.slots g.slots f, t.good.next.size))
          (elim (t.owned k) [
            | inl free ↦ ap tip_of free
            | inr (id, here, slot) ↦
                let same =
                  find_slot-injective id c.identifier k a'.slots g.slots (keeps id k slot) f in
                absurd (cc (ap (λ i. contains i seen) same, t.present id here, fresh))
          ]),
)

assign_contact-Tracked :
    (c : Contact) (seen : List ℕ) (a a' : Assignment)
    → Tracked seen a
    → KnownContact c
    → contains c.identifier seen ≡ false
    → assign_contact c a ≡ (ok tt, a')
    → Tracked (c.identifier ∷ seen) a'
      × (tips a'.next_contacts ≡ length (touching (c ∷ [])) + tips a.next_contacts)
unfolding assign_contact
assign_contact-Tracked c seen a a' t known fresh e =
    let x = assign_contact-Extends c a a' e in
    let g =
      subst (λ (r : Result (Unit {0}) × Assignment). GoodAssignment r.1) e
        (assign_contact-GoodResult c a t.good known).good in
    elim (Bool-cases (bit_and c.flags k_tip == 0)) [
      | inl lifted ↦
          let h : a ≡ a' = ground (arith, lifted, e) in
          rw lifted (
            record {
              good = g;
              present = λ id here.
                  let old =
                    t.present id (ap (λ (b : Assignment). contains id b.present) h ∙ here) in
                  ground (arith, old);
              owned = λ k. subst (Owned k) h (t.owned k);
            },
            ap (λ (b : Assignment). tips b.next_contacts) (sym h) ∙ omega arith,
          )
      | inr down ↦
          let b : Assignment = record a { present = c.identifier ∷ a.present } in
          let h : assign_found c (find_slot c.identifier a.slots) b ≡ (ok tt, a') =
            ground (arith, down, e) in
          let (k, f, next, present) =
            assign_found-next c (find_slot c.identifier a.slots) b a' refl h in
          let (t', count) = touched-Tracked c seen a a' k t fresh g x.keeps f next present in
          rw down (t', count ∙ ground (arith, down))
    ]

length-touching :
    (c : Contact) (cs : List Contact)
    → length (touching (c ∷ cs)) ≡ length (touching (c ∷ [])) + length (touching cs)
length-touching c cs = elim (Bool-cases (bit_and c.flags k_tip == 0)) [
  | inl lifted ↦ rw lifted (omega arith)
  | inr down ↦ rw down (omega arith)
]

-- The first loop: as many tips more as contacts touch.
pub assign_contacts-Tracked :
    (cs : List Contact) (seen : List ℕ) (a d : Assignment)
    → Tracked seen a
    → All KnownContact cs
    → FreshIds seen cs
    → assign_contacts cs a ≡ (ok tt, d)
    → (GoodAssignment d × ((k : ℕ) → Owned k d))
      × (tips d.next_contacts ≡ length (touching cs) + tips a.next_contacts)
unfolding assign_contacts
assign_contacts-Tracked [] seen a d t known fresh e =
    let h : a ≡ d = cc in
    (
      (subst GoodAssignment h t.good, (λ k. subst (Owned k) h (t.owned k))),
      ap (λ (b : Assignment). tips b.next_contacts) (sym h) ∙ omega arith,
    )
assign_contacts-Tracked (c ∷ cs) seen a d t known (new, fresh) e =
    let (b, first, rest) = next_assign-ok (assign_contact c a) (assign_contacts cs) d e in
    let (t', count) = assign_contact-Tracked c seen a b t known.0 new first in
    let (done, counts) =
      assign_contacts-Tracked cs (c.identifier ∷ seen) b d t' known.1 fresh rest in
    (done, omega (arith, count, counts, length-touching c cs))
