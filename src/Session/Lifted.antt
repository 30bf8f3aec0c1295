-- ===== src/Session/Lifted.antt =====
-- windows/receiver/TouchSession.cpp: the second loop of `Process` leaves the tips in the slots alone.
use touchpad.Base.{
  ℕ, ◌<◌, ◌≡◌, ◌∙◌, ap, sym, refl, subst, ◌⊎◌, inl, inr, Bool, true, false, ◌==◌, if◌then◌else◌,
  arith, List, [], ◌∷◌, length, length-set, set, get_or, get_or-set_self, get_or-set_ne, Option,
  none, some, Bool-cases, All, All-get_or,
}
use touchpad.Wire.Types.{Contact}
use touchpad.Ioctl.{hid_max_contacts}
use touchpad.Mtp1.Message.{contains}
use touchpad.Session.Types.{SlotMap, SlotContacts}
use touchpad.Session.Slots.{find_slot}
use touchpad.Session.Frames.{lift, lift_slot, leave_slots}
use touchpad.Session.Assign.{GoodSlots, GoodContacts}
use touchpad.Session.Reports.{KnownFlags}
use touchpad.Session.Stable.{find_slot-same, find_slot-new}
use touchpad.Session.Owners.{find_slot-injective, find_slot-lt, tip_of, tips, tips-set, tip_of-lift}

-- The entries are those of the map.
abbrev pub Within : SlotMap → SlotMap → Type 0
Within s total = All (λ (e : ℕ × ℕ). find_slot e.0 total ≡ some e.1) s

Within-more :
    (s total : SlotMap) (id slot : ℕ)
    → find_slot id total ≡ none
    → Within s total
    → Within s ((id, slot) ∷ total)
Within-more [] total id slot free h = tt
Within-more ((j, k) ∷ s) total id slot free (h, rest) =
    (find_slot-new j id slot k total free h, Within-more s total id slot free rest)

pub Within-all : (s : SlotMap) → GoodSlots s → Within s s
Within-all [] g = tt
Within-all ((id, slot) ∷ s) (lt, free, unused, g) =
    (find_slot-same id slot s, Within-more s s id slot free (Within-all s g))

-- A slot without a tip, or of an identifier that is present.
abbrev pub Quiet : ℕ → List ℕ → SlotMap → SlotContacts → Type 0
Quiet k present total next =
    (tip_of (get_or next k none) ≡ 0)
    ⊎ ((id : ℕ) × (contains id present ≡ true) × (find_slot id total ≡ some k))

lift_slot-tips :
    (present : List ℕ) (total : SlotMap) (id slot : ℕ) (o : Option Contact) (next : SlotContacts)
    → KnownFlags o
    → length next ≡ hid_max_contacts
    → GoodSlots total
    → find_slot id total ≡ some slot
    → contains id present ≡ false
    → ((k : ℕ) → Quiet k present total next)
    → (length (lift_slot slot o next) ≡ hid_max_contacts)
      × (tips (lift_slot slot o next) ≡ tips next)
      × ((k : ℕ) → Quiet k present total (lift_slot slot o next))
unfolding lift_slot
lift_slot-tips present total id slot none next known size g f gone q = (size, refl, q)
lift_slot-tips present total id slot (some c) next known size g f gone q =
    let inside : slot < length next = omega (arith, size, find_slot-lt id slot total g f) in
    let free : tip_of (get_or next slot none) ≡ 0 = elim (q slot) [
      | inl quiet ↦ quiet
      | inr (j, here, same) ↦
          let e = find_slot-injective j id slot total g same f in
          absurd (cc (ap (λ i. contains i present) e, here, gone))
    ] in
    (
      length-set next slot (some (lift c)) ∙ size,
      tips-set next slot (some (lift c)) inside free ∙ omega (arith, tip_of-lift c known),
      λ k. elim (Bool-cases (slot == k)) [
        | inl same ↦
            let e : slot ≡ k = ground (arith, same) in
            inl (
              ap (λ j. tip_of (get_or (set next slot (some (lift c))) j none)) (sym e)
              ∙ ap tip_of (get_or-set_self next slot (some (lift c)) none inside)
              ∙ tip_of-lift c known)
        | inr other ↦ elim (q k) [
          | inl quiet ↦ inl (
              ap tip_of (get_or-set_ne next slot k (some (lift c)) none (ground (arith, other)))
              ∙ quiet)
          | inr owner ↦ inr owner
        ]
      ],
    )

-- The second loop writes no tip and overwrites none.
pub leave_slots-tips :
    (present : List ℕ) (previous : SlotContacts) (s total : SlotMap) (r : List ℕ × SlotContacts)
    → GoodContacts previous
    → length r.1 ≡ hid_max_contacts
    → GoodSlots total
    → Within s total
    → ((k : ℕ) → Quiet k present total r.1)
    → (tips (leave_slots present previous s r).1 ≡ tips r.1)
      × (length (leave_slots present previous s r).1 ≡ hid_max_contacts)
unfolding leave_slots
leave_slots-tips present previous [] total r p size g w q = (refl, size)
leave_slots-tips present previous ((id, slot) ∷ s) total (leaving, next) p size g (f, w) q =
    let o = get_or previous slot none in
    let lifted : List ℕ × SlotContacts = (id ∷ leaving, lift_slot slot o next) in
    let Kept : Bool → Type 0 = λ b.
      let rest = leave_slots present previous s (if b then (leaving, next) else lifted) in
      (tips rest.1 ≡ tips next) × (length rest.1 ≡ hid_max_contacts) in
    elim (Bool-cases (contains id present)) [
      | inl here ↦
          subst Kept (sym here)
            (leave_slots-tips present previous s total (leaving, next) p size g w q)
      | inr gone ↦
          let (size', count, q') =
            lift_slot-tips present total id slot o next
              (All-get_or KnownFlags previous slot none p.flags tt) size g f gone q in
          let (counts, sized) = leave_slots-tips present previous s total lifted p size' g w q' in
          subst Kept (sym gone) (counts ∙ count, sized)
    ]
