-- ===== src/Agent/Race.antt =====
-- mac/Agent/main.c and windows/receiver/TouchSession.cpp: a callback on its way where a connection is
-- opened.
use mathlib.Core.List.{append-nil}
use touchpad.Base.{
  ℕ, ◌+◌, ◌%◌, ◌^◌, ◌<◌, ◌≡◌, ◌∙◌, ap, sym, refl, subst, true, arith, some, none, List, [], ◌∷◌,
  ◌++◌,
}
use touchpad.Wire.Types.{Frame, message_frame}
use touchpad.Wire.RoundTrip.{IsSendable, sent_bytes}
use touchpad.Mtp1.Types.{hello, reset, ok, err, sequence_discontinuity}
use touchpad.Mtp1.Valid.{code}
use touchpad.Mtp1.FromMac.{message_of}
use touchpad.Mtp1.Feed.{sent_stream}
use touchpad.Session.Types.{new_session}
use touchpad.Session.Process.{process, process_in_sequence}
use touchpad.Agent.Types.{Agent}
use touchpad.Agent.Queue.{queue_clear}
use touchpad.Agent.Send.{Sent, Progress, send_all, send_control, open_session}
use touchpad.Agent.Fifo.{IsQueue}
use touchpad.Agent.Controls.{control_frame, send_control-eq, send_all-whole}
use touchpad.Agent.Threads.{
  System, Flight, Sender, Move, clicking, closed, opened, greeted, ready, land, turn, step, run,
  sender_turn, lands, after_control,
}
use touchpad.Agent.Capture.{click}
use touchpad.Agent.Landed.{click-Landed}

-- A state of the threads.
abbrev threads : Agent → List Flight → Sender → List ℕ → System
threads a flights sender wire = record {
  agent = a;
  flights = flights;
  sender = sender;
  wire = wire;
}

run_four :
    (m₁ m₂ m₃ m₄ : Move) (s : System)
    → run (m₁ ∷ m₂ ∷ m₃ ∷ m₄ ∷ []) s ≡ step m₄ (step m₃ (step m₂ (step m₁ s)))
unfolding run
run_four m₁ m₂ m₃ m₄ s = refl

module _ (bytes : List ℕ) (now : ℕ) (answers : List Sent) (a : Agent) (flights : List Flight)
    (wire : List ℕ) where
  at_open :
      step (turn true bytes now answers) (threads a flights closed wire)
      ≡ threads (open_session a) flights opened []
  unfolding step sender_turn
  at_open = refl

  at_hello :
      step (turn true bytes now answers) (threads a flights opened wire)
      ≡ after_control greeted
          (send_control bytes now answers (code hello) a)
          (threads a flights opened wire)
  unfolding step sender_turn
  at_hello = refl

  at_reset :
      step (turn true bytes now answers) (threads a flights greeted wire)
      ≡ after_control ready
          (send_control bytes now answers (code reset) a)
          (threads a flights greeted wire)
  unfolding step sender_turn
  at_reset = refl

  at_click :
      step (land 0 bytes now) (threads a (clicking ∷ flights) greeted wire)
      ≡ threads (click bytes now a) flights greeted wire
  unfolding step lands
  at_click = refl

  -- The two control messages, when they are taken whole.
  hello_sent :
      now < 2 ^ 64
      → let f = control_frame ((a.sequence + 1) % 2 ^ 32) now in
        (send_all answers (sent_bytes (code hello) f)).0 ≡ some true
        → step (turn true bytes now answers) (threads a flights opened wire)
          ≡ threads
              (record a { sequence = (a.sequence + 1) % 2 ^ 32 })
              flights
              greeted
              (wire ++ sent_bytes (code hello) f)
  hello_sent t h =
      let f = control_frame ((a.sequence + 1) % 2 ^ 32) now in
      let s = threads a flights opened wire in
      at_hello
      ∙ ap (λ (r : Progress × Agent). after_control greeted r s)
          (send_control-eq bytes now answers hello a t)
      ∙ ap
          (λ (p : Progress).
            after_control greeted (p, record a { sequence = (a.sequence + 1) % 2 ^ 32 }) s)
          (send_all-whole answers (sent_bytes (code hello) f) h)

  reset_sent :
      now < 2 ^ 64
      → let f = control_frame ((a.sequence + 1) % 2 ^ 32) now in
        (send_all answers (sent_bytes (code reset) f)).0 ≡ some true
        → step (turn true bytes now answers) (threads a flights greeted wire)
          ≡ threads
              (record a { sequence = (a.sequence + 1) % 2 ^ 32 })
              flights
              ready
              (wire ++ sent_bytes (code reset) f)
  reset_sent t h =
      let f = control_frame ((a.sequence + 1) % 2 ^ 32) now in
      let s = threads a flights greeted wire in
      at_reset
      ∙ ap (λ (r : Progress × Agent). after_control ready r s)
          (send_control-eq bytes now answers reset a t)
      ∙ ap
          (λ (p : Progress).
            after_control ready (p, record a { sequence = (a.sequence + 1) % 2 ^ 32 }) s)
          (send_all-whole answers (sent_bytes (code reset) f) h)

-- A RESET two numbers behind its HELLO is refused.
gap_refused :
    (f g : Frame) (now later : ℕ)
    → g.sequence ≡ (f.sequence + 2) % 2 ^ 32
    → let greeted_session = (process now (message_of hello f) new_session).1 in
      (process later (message_of reset g) greeted_session).0 ≡ err sequence_discontinuity
unfolding process process_in_sequence
gap_refused f g now later h = ground (arith, h)

module _ (a : Agent) (others : List Flight) (wire bytes : List ℕ) (now : ℕ)
    (answers : List Sent) where
  abbrev pub first : Frame
  first = control_frame ((a.sequence + 1) % 2 ^ 32) now

  abbrev pub second : Frame
  second = control_frame ((a.sequence + 3) % 2 ^ 32) now

  -- The agent with its connection opened and its HELLO sent.
  abbrev greeting_agent : Agent
  greeting_agent = record (open_session a) { sequence = ((open_session a).sequence + 1) % 2 ^ 32 }

  opened_number :
      (send_all answers (sent_bytes (code hello) first)).0 ≡ some true
      → (send_all answers (
          sent_bytes (code hello) (control_frame (((open_session a).sequence + 1) % 2 ^ 32) now))).0
        ≡ some true
  unfolding open_session
  opened_number h = h

  first_bytes :
      sent_bytes (code hello) (control_frame (((open_session a).sequence + 1) % 2 ^ 32) now)
      ≡ sent_bytes (code hello) first
  unfolding open_session
  first_bytes = refl

  clicked_number :
      now < 2 ^ 64
      → IsQueue a.queue
      → IsSendable message_frame a.latest_frame
      → ((click bytes now greeting_agent).sequence + 1) % 2 ^ 32 ≡ (a.sequence + 3) % 2 ^ 32
  unfolding open_session queue_clear
  clicked_number t i v =
      let r =
        click-Landed bytes now greeting_agent t
          (record { size = i.size; head = omega arith; count = omega arith }) v in
      omega (arith, r.sequence, r.numbered)

  -- When a button callback has found the agent connected, and waits, maybe with others, while the connection
  -- is lost and the next one is opened, and then runs between the HELLO and the RESET, the RESET has a number two behind the
  -- HELLO's, whatever the agent's state, as long as `send` takes both; and a receiver that takes the HELLO
  -- refuses the RESET.
  pub run-gap :
      now < 2 ^ 64
      → IsQueue a.queue
      → IsSendable message_frame a.latest_frame
      → (send_all answers (sent_bytes (code hello) first)).0 ≡ some true
      → (send_all answers (sent_bytes (code reset) second)).0 ≡ some true
      → (times : ℕ × ℕ)
      → let greet = turn true bytes now answers in
        let t =
          run
            (greet ∷ greet ∷ land 0 bytes now ∷ greet ∷ [])
            (threads a (clicking ∷ others) closed wire) in
        let greeted_session = (process times.0 (message_of hello first) new_session).1 in
        (t.wire ≡ sent_stream ((hello, first) ∷ (reset, second) ∷ []))
        × (second.sequence ≡ (first.sequence + 2) % 2 ^ 32)
        × ((process times.0 (message_of hello first) new_session).0 ≡ ok none)
        × ((process times.1 (message_of reset second) greeted_session).0
            ≡ err sequence_discontinuity)
  unfolding process process_in_sequence
  run-gap t i v h₁ h₂ (time₁, time₂) =
      let b = greeting_agent in
      let c = click bytes now b in
      let sent = sent_bytes (code hello) first in
      let greet = turn true bytes now answers in
      let same = clicked_number t i v in
      let threads_end =
        run_four greet greet (land 0 bytes now) greet (threads a (clicking ∷ others) closed wire)
        ∙ ap (λ (s : System). step greet (step (land 0 bytes now) (step greet s)))
            (at_open bytes now answers a (clicking ∷ others) wire)
        ∙ ap (λ (s : System). step greet (step (land 0 bytes now) s))
            (hello_sent bytes now answers (open_session a) (clicking ∷ others) [] t
              (opened_number h₁))
        ∙ ap
            (λ (l : List ℕ).
              step greet (step (land 0 bytes now) (threads b (clicking ∷ others) greeted l)))
            first_bytes
        ∙ ap (step greet) (at_click bytes now answers b others sent)
        ∙ reset_sent bytes now answers c others sent t (
            subst
              (λ (n : ℕ).
                (send_all answers (sent_bytes (code reset) (control_frame n now))).0 ≡ some true)
              (sym same) h₂) in
      (
        ap (λ (s : System). s.wire) threads_end
            ∙ ap (λ (n : ℕ). sent ++ sent_bytes (code reset) (control_frame n now)) same
            ∙ ap (λ (l : List ℕ). sent ++ l) (sym (append-nil (sent_bytes (code reset) second))),
        omega arith,
        refl,
        gap_refused first second time₁ time₂ (omega arith),
      )
