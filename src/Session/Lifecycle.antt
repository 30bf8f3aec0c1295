-- ===== src/Session/Lifecycle.antt =====
-- windows/receiver/TouchSession.cpp: the order in which `Process` takes messages, and what an accepted
-- message does.
use touchpad.Base.{
  ℕ, ◌*◌, ◌/◌, ◌==◌, bit_and, bit_and-one, and_low_mask, ◌+◌, ◌%◌, ◌^◌, ◌≡◌, ◌∙◌, ap, sym, refl,
  ◌⊎◌, Bool, true, false, not, ◌&&◌, ◌||◌, ◌!=◌, if◌then◌else◌, arith, List, [], ◌∷◌, Option, none,
  some, ltb,
}
use touchpad.Wire.Types.{Contact}
use touchpad.Ioctl.{IoctlFrame, ioctl_frame_reset, hid_max_contacts}
use touchpad.Mtp1.Types.{
  Message, MessageType, hello, frame, reset, Error, Result, ok, err, before_hello,
  frame_before_reset, unexpected_hello, sequence_discontinuity, report_capacity,
}
use touchpad.Mtp1.Valid.{>>=-ok}
use touchpad.Session.Types.{TouchSession, SlotContacts, has_active_contacts}
use touchpad.Session.Slots.{Assignment}
use touchpad.Session.Frames.{report_slot, report_slots, release_slots, release_all}
use touchpad.Session.Process.{
  Outcome, finish_frame, after_assign, process_frame, process_in_sequence, process, frame_header,
  button_of,
}
use touchpad.Session.Kept.{refused-ok}

-- The frame number, the flags and the scan time of two reports agree.
abbrev pub SameHeader : IoctlFrame → IoctlFrame → Type 0
SameHeader f g =
    (f.sequence ≡ g.sequence) × (f.flags ≡ g.flags) × (f.scan_time_100us ≡ g.scan_time_100us)

pub if-ok :
    (b : Bool) (f : IoctlFrame) (x : Error) {g : IoctlFrame}
    → (if b then ok f else err x) ≡ ok g
    → f ≡ g
if-ok true f x e = cc
if-ok false f x e = absurd (cc)

report_slot-SameHeader :
    (slot : ℕ) (o : Option Contact) (out out' : IoctlFrame)
    → report_slot slot o out ≡ ok out'
    → SameHeader out' out
unfolding report_slot
report_slot-SameHeader slot none out out' e = (cc, cc, cc)
report_slot-SameHeader slot (some c) out out' e =
    let h = if-ok (ltb out.report_contact_count hid_max_contacts) _ report_capacity e in
    (
      ap (λ (f : IoctlFrame). f.sequence) (sym h),
      ap (λ (f : IoctlFrame). f.flags) (sym h),
      ap (λ (f : IoctlFrame). f.scan_time_100us) (sym h),
    )

report_slots-SameHeader :
    (slot : ℕ) (cs : SlotContacts) (out out' : IoctlFrame)
    → report_slots slot cs out ≡ ok out'
    → SameHeader out' out
unfolding report_slots
report_slots-SameHeader slot [] out out' e = (cc, cc, cc)
report_slots-SameHeader slot (o ∷ cs) out out' e =
    let (mid, e₁, e₂) = >>=-ok (report_slot slot o out) _ e in
    let (a, b, c) = report_slot-SameHeader slot o out mid e₁ in
    let (a', b', c') = report_slots-SameHeader (slot + 1) cs mid out' e₂ in (a' ∙ a, b' ∙ b, c' ∙ c)

release_slots-SameHeader :
    (slot : ℕ) (cs : SlotContacts) (out : IoctlFrame) → SameHeader (release_slots slot cs out) out
unfolding release_slots
release_slots-SameHeader slot [] out = (refl, refl, refl)
release_slots-SameHeader slot (none ∷ cs) out = release_slots-SameHeader (slot + 1) cs out
release_slots-SameHeader slot (some c ∷ cs) out = release_slots-SameHeader (slot + 1) cs _

-- An accepted message of each type: what the session has seen before and after, and the answer.
abbrev pub Accepted :
    MessageType → Message → Option IoctlFrame → TouchSession → TouchSession → Type 0
Accepted hello m o s s' =
    (s.hello_seen ≡ false)
    × (s.reset_seen ≡ false)
    × (o ≡ none)
    × (s'.hello_seen ≡ true)
    × (s'.reset_seen ≡ false)
    × (s'.slots ≡ s.slots)
Accepted reset m o s s' =
    (s.hello_seen ≡ true)
    × (s'.hello_seen ≡ true)
    × (s'.reset_seen ≡ true)
    × (has_active_contacts s' ≡ false)
    × (f : IoctlFrame) × (o ≡ some f)
    × (f.sequence ≡ m.sequence)
    × (f.flags ≡ ioctl_frame_reset)
Accepted frame m o s s' =
    (s.hello_seen ≡ true)
    × (s.reset_seen ≡ true)
    × (s'.hello_seen ≡ true)
    × (s'.reset_seen ≡ true)
    × (s'.button_down ≡ (m.flags % 2 == 1))
    × (f : IoctlFrame) × (o ≡ some f)
    × (f.sequence ≡ m.sequence)
    × (f.flags ≡ m.flags % 2 * 2)
    × (f.scan_time_100us ≡ m.capture_time_us / 100 % 2 ^ 16)

-- The header of a report, from the fields of the message.
button_bit : (flags : ℕ) → (bit_and flags 1 != 0) ≡ (flags % 2 == 1)
button_bit flags = ground (arith, bit_and-one flags)

header_flags : (m : Message) → (frame_header m).flags ≡ m.flags % 2 * 2
header_flags m = ground (arith, bit_and-one m.flags)

header_scan_time :
    (m : Message) → (frame_header m).scan_time_100us ≡ m.capture_time_us / 100 % 2 ^ 16
header_scan_time m = omega (arith, and_low_mask 16 (m.capture_time_us / 100))

pub finish_frame-Accepted :
    (now : ℕ) (m : Message) (leaving : List ℕ) (a : Assignment) (out : Result IoctlFrame)
    (s s' : TouchSession) (o : Option IoctlFrame)
    → finish_frame now m leaving a out s ≡ (ok o, s')
    → (s'.hello_seen ≡ s.hello_seen)
      × (s'.reset_seen ≡ s.reset_seen)
      × (s'.button_down ≡ s.button_down)
      × (s'.previous_sequence ≡ s.previous_sequence)
      × (s'.sequence_seen ≡ s.sequence_seen)
      × (f : IoctlFrame) × (o ≡ some f)
      × (out ≡ ok f)
unfolding finish_frame
finish_frame-Accepted now m leaving a (ok out) s s' o e =
    let h : _ ≡ s' = ap (λ (r : Outcome). r.1) e in
    let answer : ok (some out) ≡ ok o = ap (λ (r : Outcome). r.0) e in
    (
      ap (λ (t : TouchSession). t.hello_seen) (sym h),
      ap (λ (t : TouchSession). t.reset_seen) (sym h),
      ap (λ (t : TouchSession). t.button_down) (sym h),
      ap (λ (t : TouchSession). t.previous_sequence) (sym h),
      ap (λ (t : TouchSession). t.sequence_seen) (sym h),
      out,
      cc,
      refl,
    )
finish_frame-Accepted now m leaving a (err x) s s' o e = absurd (cc)

after_assign-Accepted :
    (now : ℕ) (m : Message) (r : Result (Unit {0}) × Assignment) (s s' : TouchSession)
    (o : Option IoctlFrame)
    → after_assign now m r s ≡ (ok o, s')
    → (s'.hello_seen ≡ s.hello_seen)
      × (s'.reset_seen ≡ s.reset_seen)
      × (s'.button_down ≡ s.button_down)
      × (s'.previous_sequence ≡ s.previous_sequence)
      × (s'.sequence_seen ≡ s.sequence_seen)
      × (f : IoctlFrame) × (o ≡ some f)
      × SameHeader f (frame_header m)
unfolding after_assign
after_assign-Accepted now m (ok u, a) s s' o e =
    let (h, r, b, p, q, f, eo, out) = finish_frame-Accepted now m _ a _ s s' o e in
    (h, r, b, p, q, f, eo, report_slots-SameHeader 0 _ _ f out)
after_assign-Accepted now m (err x, a) s s' o e = absurd (cc)

-- What an accepted message leaves of the sequence numbers, and the rest.
abbrev InSequence : Message → TouchSession → TouchSession → Option IoctlFrame → MessageType → Type 0
InSequence m s s' o t =
    (s'.previous_sequence ≡ s.previous_sequence)
    × (s'.sequence_seen ≡ s.sequence_seen)
    × Accepted t m o s s'

process_in_sequence-Accepted :
    (now : ℕ) (m : Message) (s s' : TouchSession) (t : MessageType) (o : Option IoctlFrame)
    → process_in_sequence now m s t ≡ (ok o, s')
    → InSequence m s s' o t
unfolding process_in_sequence process_frame release_all has_active_contacts
process_in_sequence-Accepted now m s s' hello o e =
    let (a, e₁) = refused-ok (s.hello_seen || s.reset_seen) unexpected_hello s _ e in
    let h : _ ≡ s' = ap (λ (r : Outcome). r.1) e₁ in
    (
      ap (λ (t : TouchSession). t.previous_sequence) (sym h),
      ap (λ (t : TouchSession). t.sequence_seen) (sym h),
      (
        ground (arith, a),
        ground (arith, a),
        cc,
        ap (λ (t : TouchSession). t.hello_seen) (sym h),
        ap (λ (t : TouchSession). t.reset_seen) (sym h) ∙ ground (arith, a),
        ap (λ (t : TouchSession). t.slots) (sym h),
      ),
    )
process_in_sequence-Accepted now m s s' reset o e =
    let (a, e₁) = refused-ok (not s.hello_seen) before_hello s _ e in
    let h : _ ≡ s' = ap (λ (r : Outcome). r.1) e₁ in
    let seen : s.hello_seen ≡ true = ground (arith, a) in
    (
      ap (λ (t : TouchSession). t.previous_sequence) (sym h),
      ap (λ (t : TouchSession). t.sequence_seen) (sym h),
      (
        seen,
        ap (λ (t : TouchSession). t.hello_seen) (sym h) ∙ seen,
        ap (λ (t : TouchSession). t.reset_seen) (sym h),
        ap has_active_contacts (sym h),
        (release_all m.sequence true s).0,
        cc,
        (release_slots-SameHeader 0 s.previous_contacts _).0,
        (release_slots-SameHeader 0 s.previous_contacts _).1,
      ),
    )
process_in_sequence-Accepted now m s s' frame o e =
    let (a, e₁) = refused-ok (not s.hello_seen) before_hello s _ e in
    let (b, e₂) = refused-ok (not s.reset_seen) frame_before_reset s _ e₁ in
    let (h, r, d, p, q, f, answer, header) =
      after_assign-Accepted now m _ (record s { button_down = button_of m }) s' o e₂ in
    let seen : s.hello_seen ≡ true = ground (arith, a) in
    let active : s.reset_seen ≡ true = ground (arith, b) in
    (
      p,
      q,
      (
        seen,
        active,
        h ∙ seen,
        r ∙ active,
        d ∙ button_bit m.flags,
        f,
        answer,
        header.0,
        header.1 ∙ header_flags m,
        header.2 ∙ header_scan_time m,
      ),
    )

-- `Accepted` does not look at the sequence numbers.
Accepted-numbered :
    (t : MessageType) (m : Message) (o : Option IoctlFrame) (s s' : TouchSession) (q : Bool) (n : ℕ)
    → Accepted t m o (record s { sequence_seen = q; previous_sequence = n }) s'
    → Accepted t m o s s'
Accepted-numbered hello m o s s' q n a = a
Accepted-numbered frame m o s s' q n a = a
Accepted-numbered reset m o s s' q n a = a

-- A message that `Process` accepts is the first of its session or has the next sequence number, modulo
-- 2^32, and its number is the one remembered. A HELLO is accepted only before anything else, and
-- answers nothing; a RESET only after a HELLO, and answers a reset of its number, with nothing active
-- behind it; a FRAME only after a HELLO and a RESET, and answers a report of its number, with bit 0
-- of its flags as the button and its capture time in whole 100 us, modulo 2^16.
pub process-Accepted :
    (now : ℕ) (m : Message) (s s' : TouchSession) (o : Option IoctlFrame)
    → process now m s ≡ (ok o, s')
    → ((s.sequence_seen ≡ false) ⊎ (m.sequence ≡ (s.previous_sequence + 1) % 2 ^ 32))
      × (s'.sequence_seen ≡ true)
      × (s'.previous_sequence ≡ m.sequence)
      × Accepted m.type m o s s'
unfolding process
process-Accepted now m s s' o e =
    let (a, e₁) =
      refused-ok (s.sequence_seen && m.sequence != (s.previous_sequence + 1) % 2 ^ 32)
        sequence_discontinuity s _ e in
    let (p, q, rest) =
      process_in_sequence-Accepted now m
        (record s { sequence_seen = true; previous_sequence = m.sequence }) s' m.type o e₁ in
    (ground (arith, a), q, p, Accepted-numbered m.type m o s s' true m.sequence rest)
