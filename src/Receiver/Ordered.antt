-- ===== src/Receiver/Ordered.antt =====
-- windows/receiver/TouchSession.cpp and Mtp1.cpp, on what mac/Agent/main.c sends: a connection that is in
-- order is never refused for its order.
use touchpad.Base.{
  ℕ, suc, ◌+◌, ◌%◌, ◌^◌, ◌≡◌, ap, sym, refl, subst, ◌⊎◌, inl, inr, Bool, true, false, not, ◌&&◌,
  ◌||◌, ◌!=◌, if◌then◌else◌, arith, Option, none, List, [], ◌∷◌, take, length, length-take, All,
}
use touchpad.Wire.Types.{Frame}
use touchpad.Ioctl.{IoctlFrame}
use touchpad.Mtp1.Types.{
  Message, MessageType, hello, frame, reset, Result, ok, err, too_many_contacts,
}
use touchpad.Wire.Encode.{sent_count, sent_flags}
use touchpad.Wire.RoundTrip.{sent_count-le}
use touchpad.Mtp1.Header.{is_control}
use touchpad.Mtp1.Valid.{ValidMessage, code}
use touchpad.Mtp1.FromMac.{message_of, IsReceivable}
use touchpad.Mtp1.Stream.{new_decoder}
use touchpad.Mtp1.Feed.{
  Sent, AllReceivable, IsPiece, concat, sent_stream, messages_of, feed, feed-sent_stream,
}
use touchpad.Session.Types.{TouchSession, new_session}
use touchpad.Session.Process.{Outcome, process, process_in_sequence}
use touchpad.Session.Invariant.{IsSession, new_session-IsSession, process-GoodOutcome}
use touchpad.Session.Lifecycle.{Accepted, process-Accepted}
use touchpad.Session.Errors.{FailsBy, IsCapacity, process_frame-FailsBy, capacity_error}
use touchpad.Agent.Order.{Stage, greets, resets, streams, type_at, next_stage, InOrder}

-- A session that has seen the messages of a connection in order, up to the stage and the number.
abbrev pub Expects : Stage → ℕ → TouchSession → Type 0
Expects greets n s = (s.hello_seen ≡ false) × (s.reset_seen ≡ false) × (s.sequence_seen ≡ false)
Expects resets n s =
    (s.hello_seen ≡ true)
    × (s.reset_seen ≡ false)
    × (s.sequence_seen ≡ true)
    × (s.previous_sequence ≡ n)
Expects streams n s =
    (s.hello_seen ≡ true)
    × (s.reset_seen ≡ true)
    × (s.sequence_seen ≡ true)
    × (s.previous_sequence ≡ n)

if-first :
    (b : Bool) (x y : Outcome)
    → b ≡ false
    → FailsBy IsCapacity y.0
    → FailsBy IsCapacity (if b then x else y).0
if-first true x y e h = absurd (cc)
if-first false x y e h = h

-- Behind an accepted message.
Accepted-Expects :
    (st : Stage) (n : ℕ) (m : Message) (o : Option IoctlFrame) (s s' : TouchSession)
    → Expects st n s
    → m.type ≡ type_at st
    → s'.sequence_seen ≡ true
    → s'.previous_sequence ≡ m.sequence
    → Accepted (type_at st) m o s s'
    → Expects (next_stage st) m.sequence s'
Accepted-Expects greets n m o s s' h t q p (a, b, none_left, hello_seen, reset_seen, same) =
    (hello_seen, reset_seen, q, p)
Accepted-Expects resets n m o s s' h t q p
      (a, hello_seen, reset_seen, idle, f, answer, number, flags) =
    (hello_seen, reset_seen, q, p)
Accepted-Expects streams n m o s s' h t q p
      (a, b, hello_seen, reset_seen, button, f, answer, number, flags, scan_time) =
    (hello_seen, reset_seen, q, p)

-- The test of the sequence number lets such a message through.
sequence_passes :
    (st : Stage) (n : ℕ) (m : Message) (s : TouchSession)
    → Expects st n s
    → m.sequence ≡ (n + 1) % 2 ^ 32
    → (s.sequence_seen && m.sequence != (s.previous_sequence + 1) % 2 ^ 32) ≡ false
sequence_passes greets n m s (a, b, c) e = ground (arith, c)
sequence_passes resets n m s (a, b, c, d) e = ground (arith, d, e)
sequence_passes streams n m s (a, b, c, d) e = ground (arith, d, e)

in_sequence-FailsBy :
    (st : Stage) (n now : ℕ) (m : Message) (s : TouchSession)
    → Expects st n s
    → FailsBy IsCapacity
        (process_in_sequence now m
          (record s { sequence_seen = true; previous_sequence = m.sequence })
          (type_at st)).0
unfolding process_in_sequence
in_sequence-FailsBy greets n now m s (a, b, c) =
    if-first (s.hello_seen || s.reset_seen) _ _ (ground (arith, a, b)) tt
in_sequence-FailsBy resets n now m s (a, b, c, d) =
    if-first (not s.hello_seen) _ _ (ground (arith, a)) tt
in_sequence-FailsBy streams n now m s (a, b, c, d) =
    if-first (not s.hello_seen) _ _ (ground (arith, a)) (
      if-first (not s.reset_seen) _ _ (ground (arith, b)) (
        process_frame-FailsBy now m
          (record s { sequence_seen = true; previous_sequence = m.sequence })))

-- Past the tests of the order.
process-FailsBy :
    (st : Stage) (n now : ℕ) (m : Message) (s : TouchSession)
    → Expects st n s
    → m.type ≡ type_at st
    → m.sequence ≡ (n + 1) % 2 ^ 32
    → FailsBy IsCapacity (process now m s).0
unfolding process
process-FailsBy st n now m s h t e =
    if-first (s.sequence_seen && m.sequence != (s.previous_sequence + 1) % 2 ^ 32) _ _
      (sequence_passes st n m s h e)
      (subst
        (λ (t' : MessageType).
          FailsBy IsCapacity
            (process_in_sequence now m
              (record s { sequence_seen = true; previous_sequence = m.sequence }) t').0)
        (sym t) (in_sequence-FailsBy st n now m s h))

-- What a message of the next number makes of such a session: it is accepted, or it has more contacts than there
-- are slots.
abbrev pub Taken : Stage → ℕ → Outcome → Type 0
Taken st n (ok o, s) = Expects st n s × IsSession s
Taken st n (err x, s) = x ≡ too_many_contacts

process-Taken :
    (st : Stage) (n now : ℕ) (m : Message) (s : TouchSession) (r : Outcome)
    → Expects st n s
    → IsSession s
    → ValidMessage m
    → m.type ≡ type_at st
    → m.sequence ≡ (n + 1) % 2 ^ 32
    → process now m s ≡ r
    → Taken (next_stage st) m.sequence r
process-Taken st n now m s (ok o, s') h i v t e result =
    let (first, q, p, a) = process-Accepted now m s s' o result in
    (
      Accepted-Expects st n m o s s' h t q p
          (subst (λ (t' : MessageType). Accepted t' m o s s') t a),
      subst (λ (r : Outcome). IsSession r.1) result (process-GoodOutcome now m s i v).session,
    )
process-Taken st n now m s (err x, s') h i v t e result =
    capacity_error (process now m s).0 x (ap (λ (r : Outcome). r.0) result)
      (process-FailsBy st n now m s h t e) (process-GoodOutcome now m s i v).answer

abbrev pub process_next : Outcome → (TouchSession → Outcome) → Outcome
process_next (ok o, s) next = next s
process_next (err x, s) next = (err x, s)

-- `Process` of one message after the other, up to the first exception; `clock` gives the times.
unfoldable pub process_all : (ℕ → ℕ) → List Message → TouchSession → Outcome
process_all clock [] s = (ok none, s)
process_all clock (m ∷ ms) s =
    process_next (process (clock 0) m s) (process_all (λ k. clock (k + 1)) ms)

-- Without an exception, or with the one of too many active contacts.
abbrev pub EndsTaken : Result (Option IoctlFrame) → Type 0
EndsTaken r = (r ≡ ok none) ⊎ (r ≡ err too_many_contacts)

control_empty :
    (t : MessageType) (f : Frame)
    → is_control t ≡ true
    → (take (sent_count (code t) f) f.contacts ≡ []) × (sent_flags (code t) f ≡ 0)
control_empty hello f k = (refl, refl)
control_empty reset f k = (refl, refl)
control_empty frame f k = absurd (cc)

message_of-ValidMessage :
    (t : MessageType) (f : Frame) → IsReceivable t f → ValidMessage (message_of t f)
message_of-ValidMessage t f v = record {
  flags = v.sendable.flags;
  count = omega (
    arith,
    length-take (sent_count (code t) f) f.contacts,
    sent_count-le (code t) f v.sendable.count,
  );
  contacts = v.contacts;
  fresh = v.fresh;
  control = λ k. control_empty t f k;
}

length-messages_of : (l : List Sent) → length (messages_of l) ≡ length l
length-messages_of [] = refl
length-messages_of (m ∷ l) = ap suc (length-messages_of l)

process_next-Taken :
    (clock : ℕ → ℕ) (st : Stage) (n : ℕ) (l : List Sent) (r : Outcome)
    → Taken st n r
    → ((s : TouchSession)
        → Expects st n s
        → IsSession s
        → EndsTaken (process_all clock (messages_of l) s).0)
    → EndsTaken (process_next r (process_all clock (messages_of l))).0
process_next-Taken clock st n l (ok o, s) (h, i) next = next s h i
process_next-Taken clock st n l (err x, s) h next = inr (ap err h)

process_all-Taken :
    (clock : ℕ → ℕ) (st : Stage) (n : ℕ) (l : List Sent) (s : TouchSession)
    → InOrder st n l
    → AllReceivable l
    → Expects st n s
    → IsSession s
    → EndsTaken (process_all clock (messages_of l) s).0
unfolding process_all
process_all-Taken clock st n [] s order valid h i = inl refl
process_all-Taken clock st n ((t, f) ∷ l) s (type, number, sendable, order) (v, valid) h i =
    let m = message_of t f in
    process_next-Taken (λ k. clock (k + 1)) (next_stage st) f.sequence l (process (clock 0) m s)
      (process-Taken st n (clock 0) m s _ h i (message_of-ValidMessage t f v) type number refl)
      (λ s' h' i'.
        process_all-Taken (λ k. clock (k + 1)) (next_stage st) f.sequence l s' order valid h' i')

-- The stream of a connection that the Mac sends in order, of frames that the receiver can take, in pieces of
-- at most 477 bytes: the decoder takes every piece, and the session takes every message that comes out, or
-- stops with the exception of too many active contacts. No message is refused for its sequence number or
-- for its place behind HELLO and RESET, and none for one of the two internal errors.
pub process_all-InOrder :
    (clock : ℕ → ℕ) (n : ℕ) (l : List Sent) (pieces : List (List ℕ))
    → InOrder greets n l
    → AllReceivable l
    → All IsPiece pieces
    → concat pieces ≡ sent_stream l
    → let (fed, d) = feed pieces new_decoder in
      (fed ≡ ok tt)
      × (length d.messages ≡ length l)
      × EndsTaken (process_all clock d.messages new_session).0
process_all-InOrder clock n l pieces order valid small whole =
    rw (feed-sent_stream l pieces valid small whole) (
      refl,
      length-messages_of l,
      process_all-Taken clock greets n l new_session order valid (refl, refl, refl)
          new_session-IsSession,
    )
