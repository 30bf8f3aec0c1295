-- ===== src/Session/Reach.antt =====
-- windows/receiver/TouchSession.cpp: the sessions that messages, disconnects and timeouts lead to, in
-- any order.
use touchpad.Base.{
  ℕ, ◌+◌, ◌%◌, ◌^◌, ◌≡◌, refl, ◌⊎◌, inl, inr, Bool, true, false, not, ◌&&◌, ◌||◌, ◌!=◌, ltb, ◌-◌,
  if◌then◌else◌, arith, List, Bool-cases,
}
use touchpad.Ioctl.{IoctlFrame}
use touchpad.Mtp1.Types.{Message, MessageType, hello, frame, reset, Result, ok, err}
use touchpad.Mtp1.Valid.{ValidMessage}
use touchpad.Session.Types.{TouchSession, new_session, has_active_contacts, k_frame_timeout}
use touchpad.Session.Slots.{Assignment}
use touchpad.Session.Frames.{release_all}
use touchpad.Session.Process.{
  Outcome, finish_frame, after_assign, process_frame, process_in_sequence, process, button_of,
  on_disconnect, on_timeout,
}
use touchpad.Session.Invariant.{
  IsSession, new_session-IsSession, process-GoodOutcome, on_disconnect-IsRelease,
  on_timeout-IsRelease,
}

-- What happens to a session: a decoded message, whatever `Process` does with it, the end of the
-- connection, or a poll of the timeout.
pub data Step : TouchSession → TouchSession → Type 0 where
  message : {s : TouchSession} (now : ℕ) (m : Message) → ValidMessage m → Step s (process now m s).1
  disconnect : {s : TouchSession} → Step s (on_disconnect s).1
  timeout : {s : TouchSession} (now : ℕ) → Step s (on_timeout now s).1

pub data Reachable : TouchSession → Type 0 where
  start : Reachable new_session
  more : {s t : TouchSession} → Reachable s → Step s t → Reachable t

-- Either a HELLO and a RESET have been seen, or no RESET has and nothing is active.
abbrev pub IsPhased : TouchSession → Type 0
IsPhased s =
    ((s.hello_seen ≡ true) × (s.reset_seen ≡ true))
    ⊎ ((s.reset_seen ≡ false) × (has_active_contacts s ≡ false))

finish_frame-active :
    (now : ℕ) (m : Message) (leaving : List ℕ) (a : Assignment) (out : Result IoctlFrame)
    (s : TouchSession)
    → s.hello_seen ≡ true
    → s.reset_seen ≡ true
    → IsPhased (finish_frame now m leaving a out s).1
unfolding finish_frame
finish_frame-active now m leaving a (ok out) s h r = inl (h, r)
finish_frame-active now m leaving a (err x) s h r = inl (h, r)

after_assign-active :
    (now : ℕ) (m : Message) (r : Result (Unit {0}) × Assignment) (s : TouchSession)
    → s.hello_seen ≡ true
    → s.reset_seen ≡ true
    → IsPhased (after_assign now m r s).1
unfolding after_assign
after_assign-active now m (err x, a) s h r = inl (h, r)
after_assign-active now m (ok u, a) s h r = finish_frame-active now m _ a _ s h r

if-IsPhased :
    (b : Bool) (x y : Outcome)
    → IsPhased x.1
    → (b ≡ false → IsPhased y.1)
    → IsPhased (if b then x else y).1
if-IsPhased true x y p q = p
if-IsPhased false x y p q = q refl

process_in_sequence-IsPhased :
    (now : ℕ) (m : Message) (s : TouchSession) (t : MessageType)
    → IsPhased s
    → IsPhased (process_in_sequence now m s t).1
unfolding process_in_sequence process_frame has_active_contacts release_all
process_in_sequence-IsPhased now m s hello p =
    if-IsPhased (s.hello_seen || s.reset_seen) _ _ p
      (λ fresh. elim p [ inl seen ↦ absurd (ground (arith, fresh, seen)) | inr idle ↦ inr idle ])
process_in_sequence-IsPhased now m s reset p =
    if-IsPhased (not s.hello_seen) _ _ p (λ seen. inl (ground (arith, seen), refl))
process_in_sequence-IsPhased now m s frame p = if-IsPhased (not s.hello_seen) _ _ p (λ h.
    if-IsPhased (not s.reset_seen) _ _ p (λ r.
      after_assign-active now m _ (record s { button_down = button_of m }) (ground (arith, h))
        (ground (arith, r))))

process-IsPhased :
    (now : ℕ) (m : Message) (s : TouchSession) → IsPhased s → IsPhased (process now m s).1
unfolding process has_active_contacts
process-IsPhased now m s p =
    if-IsPhased (s.sequence_seen && m.sequence != (s.previous_sequence + 1) % 2 ^ 32) _ _ p (λ next.
      process_in_sequence-IsPhased now m
        (record s { sequence_seen = true; previous_sequence = m.sequence }) m.type p)

on_disconnect-IsPhased : (s : TouchSession) → IsPhased (on_disconnect s).1
unfolding on_disconnect release_all has_active_contacts
on_disconnect-IsPhased s = inr (refl, refl)

on_timeout-IsPhased : (now : ℕ) (s : TouchSession) → IsPhased s → IsPhased (on_timeout now s).1
unfolding on_timeout release_all has_active_contacts
on_timeout-IsPhased now s p =
    elim (Bool-cases
      (not (has_active_contacts s) || ltb (now - s.last_frame_time) k_frame_timeout)) [
        | inl quiet ↦ rw quiet p
        | inr late ↦ rw late (elim p [ inl seen ↦ inl seen | inr idle ↦ inr (idle.0, refl) ])
      ]

Step-Invariant :
    {s t : TouchSession} → Step s t → IsSession s × IsPhased s → IsSession t × IsPhased t
Step-Invariant {s} (message now m v) (i, p) =
    ((process-GoodOutcome now m s i v).session, process-IsPhased now m s p)
Step-Invariant {s} disconnect (i, p) = ((on_disconnect-IsRelease s i).0, on_disconnect-IsPhased s)
Step-Invariant {s} (timeout now) (i, p) =
    ((on_timeout-IsRelease now s i).0, on_timeout-IsPhased now s p)

-- Whatever messages that `DecodeMessage` lets through, disconnects and timeouts come in whatever order,
-- also after `Process` has thrown: the slots are distinct and below five, the remembered contacts fill
-- five places, and nothing is active unless a HELLO and a RESET have been seen since the last
-- disconnect.
pub Reachable-Invariant : {s : TouchSession} → Reachable s → IsSession s × IsPhased s
unfolding has_active_contacts
Reachable-Invariant start = (new_session-IsSession, inr (refl, refl))
Reachable-Invariant (more r step) = Step-Invariant step (Reachable-Invariant r)
