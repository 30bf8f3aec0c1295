-- ===== src/Session/Walk.antt =====
-- windows/receiver/TouchSession.cpp: a loop over `slots_` that changes the slot of each entry alone.
use touchpad.Base.{
  ℕ, suc, ◌<◌, ◌≡◌, ◌≢◌, ◌∙◌, ap, sym, refl, inl, inr, false, arith, [], ◌∷◌, length, get_or,
  Option, none, some, Bool-cases,
}
use touchpad.Ioctl.{hid_max_contacts}
use touchpad.Wire.Types.{Contact}
use touchpad.Session.Types.{SlotMap, SlotContacts}
use touchpad.Session.Slots.{find_slot, slot_used}
use touchpad.Session.Assign.{GoodSlots}
use touchpad.Session.Owners.{find_slot-used, find_slot-cases}
use touchpad.Session.Same.{SameMap, slot_used-owner, slot_used-SameMap}

-- Lists of one length with the same entries.
pub get_or-ext :
    (xs ys : SlotContacts)
    → length xs ≡ length ys
    → ((k : ℕ) → get_or xs k none ≡ get_or ys k none)
    → xs ≡ ys
get_or-ext [] [] e h = refl
get_or-ext [] (y ∷ ys) e h = absurd (omega (arith, e))
get_or-ext (x ∷ xs) [] e h = absurd (omega (arith, e))
get_or-ext (x ∷ xs) (y ∷ ys) e h =
    let rest = get_or-ext xs ys (omega (arith, e)) (λ k. h (suc k)) in cc (h 0, rest)

-- What the body does for an identifier and its slot: `value` becomes of the slot, and nothing of the
-- others.
pub record IsLocal (step : ℕ → ℕ → SlotContacts → SlotContacts)
    (value : ℕ → ℕ → Option Contact → Option Contact) : Type 0 where
  pub size : (id slot : ℕ) (next : SlotContacts) → length (step id slot next) ≡ length next
  pub here :
      (id slot : ℕ) (next : SlotContacts)
      → slot < length next
      → get_or (step id slot next) slot none ≡ value id slot (get_or next slot none)
  pub elsewhere :
      (id slot k : ℕ) (next : SlotContacts)
      → slot ≢ k
      → get_or (step id slot next) k none ≡ get_or next k none

module _ (step : ℕ → ℕ → SlotContacts → SlotContacts)
    (value : ℕ → ℕ → Option Contact → Option Contact) (local : IsLocal step value) where
  -- The loop.
  abbrev pub walk : SlotMap → SlotContacts → SlotContacts
  walk [] next = next
  walk ((id, slot) ∷ s) next = walk s (step id slot next)

  length-walk : (s : SlotMap) (next : SlotContacts) → length (walk s next) ≡ length next
  length-walk [] next = refl
  length-walk ((id, slot) ∷ s) next = length-walk s (step id slot next) ∙ local.size id slot next

  walk-free :
      (k : ℕ) (s : SlotMap) (next : SlotContacts)
      → slot_used k s ≡ false
      → get_or (walk s next) k none ≡ get_or next k none
  unfolding slot_used
  walk-free k [] next h = refl
  walk-free k ((id, slot) ∷ s) next h =
      walk-free k s (step id slot next) (ground (arith, h))
      ∙ local.elsewhere id slot k next (ground (arith, h))

  walk-owner :
      (id k : ℕ) (s : SlotMap) (next : SlotContacts)
      → GoodSlots s
      → length next ≡ hid_max_contacts
      → find_slot id s ≡ some k
      → get_or (walk s next) k none ≡ value id k (get_or next k none)
  walk-owner id k [] next g size e = absurd (unfold find_slot in cc)
  walk-owner id k ((j, slot) ∷ s) next (lt, free, unused, g) size e =
      elim (find_slot-cases id k j slot s e) [
        | inl (a, b) ↦
            walk-free k s (step j slot next) (ap (λ l. slot_used l s) (sym b) ∙ unused)
            ∙ ap (λ l. get_or (step j slot next) l none) (sym b)
            ∙ local.here j slot next (omega (arith, lt, size))
            ∙ ap (λ i. value i slot (get_or next slot none)) a
            ∙ ap (λ l. value id l (get_or next l none)) b
        | inr f ↦
            let used = find_slot-used id k s f in
            walk-owner id k s (step j slot next) g (local.size j slot next ∙ size) f
            ∙ ap (value id k)
                (local.elsewhere j slot k next (λ same. absurd (cc (used, unused, same))))
      ]

  -- The loop does the same, in whatever order the entries stand.
  pub walk-SameMap :
      (s t : SlotMap) (next : SlotContacts)
      → GoodSlots s
      → GoodSlots t
      → SameMap s t
      → length next ≡ hid_max_contacts
      → walk s next ≡ walk t next
  walk-SameMap s t next g h same size =
      get_or-ext (walk s next) (walk t next) (length-walk s next ∙ sym (length-walk t next)) (λ k.
        elim (Bool-cases (slot_used k s)) [
          | inl used ↦
              let (id, f) = slot_used-owner k s g used in
              walk-owner id k s next g size f
              ∙ sym (walk-owner id k t next h size (sym (same id) ∙ f))
          | inr free ↦
              walk-free k s next free
              ∙ sym (walk-free k t next (sym (slot_used-SameMap k s t g h same) ∙ free))
        ])
