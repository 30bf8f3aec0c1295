-- ===== src/Agent/Order.antt =====
-- mac/Agent/main.c and windows/receiver/TouchSession.cpp: the order of the messages of one connection.
use mathlib.Core.List.{append_assoc}
use touchpad.Base.{ℕ, ◌+◌, ◌%◌, ◌^◌, ◌≡◌, ◌∙◌, ap, sym, refl, List, [], ◌∷◌, ◌++◌}
use touchpad.Wire.Types.{Frame}
use touchpad.Wire.RoundTrip.{IsSendable, sent_bytes}
use touchpad.Mtp1.Types.{MessageType, hello, frame, reset}
use touchpad.Mtp1.Valid.{code}
use touchpad.Mtp1.Feed.{Sent, sent_stream}
use touchpad.Agent.Types.{WireMessage}
use touchpad.Agent.Enqueue.{sent_of}

-- What a connection carries next.
pub data Stage : Type 0 where
  greets resets streams : Stage

abbrev pub type_at : Stage → MessageType
type_at greets = hello
type_at resets = reset
type_at streams = frame

abbrev pub next_stage : Stage → Stage
next_stage greets = resets
next_stage resets = streams
next_stage streams = streams

-- A HELLO, a RESET and FRAMEs, from the stage on, with the numbers behind `n`, modulo 2^32.
abbrev pub InOrder : Stage → ℕ → List Sent → Type 0
InOrder stage n [] = Unit
InOrder stage n ((t, f) ∷ l) =
    (t ≡ type_at stage)
    × (f.sequence ≡ (n + 1) % 2 ^ 32)
    × IsSendable (code t) f
    × InOrder (next_stage stage) f.sequence l

-- The stage and the last number behind them.
abbrev pub stage_after : Stage → List Sent → Stage
stage_after stage [] = stage
stage_after stage (s ∷ l) = stage_after (next_stage stage) l

abbrev pub number_after : ℕ → List Sent → ℕ
number_after n [] = n
number_after n ((t, f) ∷ l) = number_after f.sequence l

pub stage_after-streams : (l : List Sent) → stage_after streams l ≡ streams
stage_after-streams [] = refl
stage_after-streams (s ∷ l) = stage_after-streams l

pub stage_after-append :
    (stage : Stage) (l m : List Sent)
    → stage_after stage (l ++ m) ≡ stage_after (stage_after stage l) m
stage_after-append stage [] m = refl
stage_after-append stage (s ∷ l) m = stage_after-append (next_stage stage) l m

pub number_after-append :
    (n : ℕ) (l m : List Sent) → number_after n (l ++ m) ≡ number_after (number_after n l) m
number_after-append n [] m = refl
number_after-append n ((t, f) ∷ l) m = number_after-append f.sequence l m

pub InOrder-append :
    (stage : Stage) (n : ℕ) (l m : List Sent)
    → InOrder stage n l
    → InOrder (stage_after stage l) (number_after n l) m
    → InOrder stage n (l ++ m)
InOrder-append stage n [] m h k = k
InOrder-append stage n ((t, f) ∷ l) m (a, b, c, h) k =
    (a, b, c, InOrder-append (next_stage stage) f.sequence l m h k)

pub InOrder-front :
    (stage : Stage) (n : ℕ) (l m : List Sent) → InOrder stage n (l ++ m) → InOrder stage n l
InOrder-front stage n [] m h = tt
InOrder-front stage n ((t, f) ∷ l) m (a, b, c, h) =
    (a, b, c, InOrder-front (next_stage stage) f.sequence l m h)

pub sent_stream-append : (l m : List Sent) → sent_stream (l ++ m) ≡ sent_stream l ++ sent_stream m
sent_stream-append [] m = refl
sent_stream-append ((t, f) ∷ l) m =
    ap (λ (r : List ℕ). sent_bytes (code t) f ++ r) (sent_stream-append l m)
    ∙ sym (append_assoc (sent_bytes (code t) f) (sent_stream l) (sent_stream m))

-- The bytes are a beginning of such a connection.
abbrev pub Begun : List ℕ → Type 0
Begun wire =
    (n : ℕ) × (l : List Sent) × (rest : List ℕ) × InOrder greets n l
    × (wire ++ rest ≡ sent_stream l)

-- The messages are those of the frames, in this order.
abbrev pub Holds : List WireMessage → List Sent → Type 0
Holds [] [] = Unit
Holds [] (s ∷ l) = ⊥
Holds (m ∷ ms) [] = ⊥
Holds (m ∷ ms) (s ∷ l) = (sent_of m ≡ sent_bytes (code s.0) s.1) × Holds ms l

pub Holds-last :
    (ms : List WireMessage) (l : List Sent) (m : WireMessage) (t : MessageType) (f : Frame)
    → Holds ms l
    → sent_of m ≡ sent_bytes (code t) f
    → Holds (ms ++ (m ∷ [])) (l ++ ((t, f) ∷ []))
Holds-last [] [] m t f h e = (e, tt)
Holds-last [] (s ∷ l) m t f h e = elim h [ ]
Holds-last (k ∷ ms) [] m t f h e = elim h [ ]
Holds-last (k ∷ ms) (s ∷ l) m t f h e = (h.0, Holds-last ms l m t f h.1 e)
