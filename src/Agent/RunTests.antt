-- ===== src/Agent/RunTests.antt =====
-- mac/Agent/main.c: the theorems about the threads of the agent on a concrete run.
use touchpad.Base.{
  ℕ, zero, suc, ap, drop, ◌≤◌, ◌+◌, ◌%◌, ◌^◌, ◌≡◌, refl, length, true, false, arith, some, none,
  List, [], ◌∷◌, replicate,
}
use touchpad.Wire.Encode.{encode_message, message_bytes, put_header, put_contacts}
use touchpad.Wire.RoundTrip.{sent_bytes}
use touchpad.Mtp1.Valid.{code}
use touchpad.Agent.Controls.{control_frame}
use touchpad.Mtp1.Types.{hello, reset, frame, ok, err, sequence_discontinuity}
use touchpad.Mtp1.FromMac.{message_of}
use touchpad.Mtp1.Feed.{sent_stream}
use touchpad.Session.Types.{TouchSession, new_session}
use touchpad.Session.Process.{process}
use touchpad.Agent.Capture.{press_button}
use touchpad.Agent.Settings.{threshold_flag, default_settings, parse_arguments}
use touchpad.Agent.Options.{parse_arguments-nan}
use touchpad.Agent.Send.{Sent, took, send_all}
use touchpad.Agent.Order.{Begun}
use touchpad.Agent.Threads.{
  Move, button, land, turn, step, run, clicking, closed, waiting, new_agent, new_system,
}
use touchpad.Agent.Runs.{IsCalmRun, run-Begun, new_system-Good}
use touchpad.Agent.Overflow.{run-overflow}
use touchpad.Agent.Types.{Agent, queue_capacity, zero_message}
use touchpad.Wire.Types.{Frame, message_frame, max_message_size}
use touchpad.Agent.Race.{first, second, run-gap}

abbrev stack : List ℕ
stack = replicate 476 0

-- A connection is opened and its session starts, two callbacks of the button wait and get the mutex in
-- the other order, and the first frame is sent.
abbrev answers : List Sent
answers = took 475 ∷ []

abbrev go : Move
go = turn true stack 9 answers

abbrev moves : List Move
moves =
    go
    ∷ go
    ∷ go
    ∷ go
    ∷ button 1 0
    ∷ button 0 1
    ∷ land 1 stack 10
    ∷ land 0 stack 11
    ∷ go
    ∷ go
    ∷ go
    ∷ []

moves-IsCalmRun : IsCalmRun moves (new_system 0)
unfolding step encode_message message_bytes put_header
moves-IsCalmRun = (
  omega arith,
  (λ e. refl),
  (
    omega arith,
    (λ e. refl),
    (
      omega arith,
      (λ e. refl),
      (
        omega arith,
        (λ e. refl),
        (
          tt,
          tt,
          (
            tt,
            tt,
            (
              omega arith,
              (λ e. refl),
              (
                omega arith,
                (λ e. refl),
                (
                  omega arith,
                  (λ e. refl),
                  (omega arith, (λ e. refl), (omega arith, (λ e. refl), tt)),
                ),
              ),
            ),
          ),
        ),
      ),
    ),
  ),
)

run-Begun_example : Begun (run moves (new_system 0)).wire
run-Begun_example = run-Begun moves (new_system 0) (new_system-Good 0) moves-IsCalmRun

all_of_hello : (send_all answers (sent_bytes (code hello) (control_frame 1 9))).0 ≡ some true
unfolding send_all message_bytes put_header put_contacts
all_of_hello = refl

all_of_reset : (send_all answers (sent_bytes (code reset) (control_frame 3 9))).0 ≡ some true
unfolding send_all message_bytes put_header put_contacts
all_of_reset = refl

-- The same agent, with a click that waits while the connection is opened.
run-gap_example :
    let t =
      run
        (go ∷ go ∷ land 0 stack 9 ∷ go ∷ [])
        (record { agent = new_agent 0; flights = clicking ∷ []; sender = closed; wire = [] }) in
    let f = first (new_agent 0) [] [] stack 9 answers in
    let g = second (new_agent 0) [] [] stack 9 answers in
    (t.wire ≡ sent_stream ((hello, f) ∷ (reset, g) ∷ []))
    × (g.sequence ≡ (f.sequence + 2) % 2 ^ 32)
    × ((process 0 (message_of hello f) new_session).0 ≡ ok none)
    × ((process 1 (message_of reset g) (process 0 (message_of hello f) new_session).1).0
        ≡ err sequence_discontinuity)
run-gap_example =
    run-gap (new_agent 0) [] [] stack 9 answers (omega arith) (new_system-Good 0).queue
      (new_system-Good 0).latest all_of_hello all_of_reset (0, 1)

-- A text of three bytes that `strtof` reads as a NaN.
abbrev reads_nan : List ℕ → ℕ × ℕ
reads_nan text = (0x7fc0_0000, length text)

parse_arguments-nan_example :
    (parse_arguments reads_nan ([] ∷ [] ∷ threshold_flag ∷ (110 ∷ 97 ∷ 110 ∷ []) ∷ [])
      ≡ some (record (default_settings []) { pressure_threshold = 0x7fc0_0000 }))
    × ((press_button 1 0x4700_0000 (new_agent 0x7fc0_0000)).pressure_button_down ≡ false)
parse_arguments-nan_example =
    parse_arguments-nan reads_nan [] [] (110 ∷ 97 ∷ 110 ∷ []) 0x7fc0_0000 1 0x4700_0000
      (new_agent 0x7fc0_0000) (λ e. cc) refl refl refl refl

drop_whole : (n : ℕ) (l : List ℕ) → length l ≤ n → drop n l ≡ []
drop_whole zero [] h = refl
drop_whole (suc n) [] h = refl
drop_whole zero (b ∷ l) h = absurd (omega (arith, h))
drop_whole (suc n) (b ∷ l) h = drop_whole n l (omega (arith, h))

-- One answer takes any message.
takes_whole : (l : List ℕ) → length l ≤ max_message_size → (send_all answers l).0 ≡ some true
unfolding send_all
takes_whole [] h = refl
takes_whole (b ∷ l) h = ap (λ (r : List ℕ). (send_all [] r).0) (drop_whole 475 l (omega (arith, h)))

-- A connected agent whose queue is full.
abbrev overfull : Agent
overfull = record (new_agent 0) {
  connected = true;
  sequence = 300;
  queue = record {
    items = replicate queue_capacity zero_message;
    head = 0;
    count = queue_capacity;
  };
}

abbrev up_to_44 : TouchSession
up_to_44 = record new_session {
  hello_seen = true;
  reset_seen = true;
  sequence_seen = true;
  previous_sequence = 44;
}

run-overflow_example :
    let t = run (land 0 stack 9 ∷ land 0 stack 9 ∷ go ∷ go ∷ []) (record {
      agent = overfull;
      flights = clicking ∷ clicking ∷ [];
      sender = waiting;
      wire = [];
    }) in
    (f : Frame) × (t.wire ≡ sent_bytes message_frame f)
    × (f.sequence ≡ 302)
    × ((process 0 (message_of frame f) up_to_44).0 ≡ err sequence_discontinuity)
run-overflow_example =
    run-overflow stack 9 answers overfull [] [] up_to_44 0 (omega arith)
      (record { size = refl; head = omega arith; count = omega arith }) refl
      (new_system-Good 0).latest takes_whole refl (omega arith) (λ e. absurd (omega arith))
