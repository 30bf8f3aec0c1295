-- ===== src/Agent/Threads.antt =====
-- mac/Agent/main.c: the callbacks and `sender_main` as threads. Any number of callbacks can be on their
-- way: each is cut where it has found the agent connected and waits for the mutex of the frame;
-- `sender_main` is cut between its calls.
use touchpad.Base.{
  ℕ, zero, suc, get_or, ◌+◌, ◌%◌, ◌^◌, Bool, true, false, not, ◌&&◌, ltb, if◌then◌else◌, Option,
  none, some, List, [], ◌∷◌, ◌++◌, take, replicate,
}
use touchpad.Wire.Types.{max_contacts, zero_frame}
use touchpad.Mtp1.Types.{hello, reset}
use touchpad.Mtp1.Valid.{code}
use touchpad.Agent.Types.{WireMessage, MessageQueue, Agent, zero_message, queue_capacity}
use touchpad.Agent.Queue.{queue_pop}
use touchpad.Agent.Capture.{MtTouch, count_button, click, capture_touches}
use touchpad.Agent.Send.{
  Sent, Progress, send_all, send_control, open_session, start_session, end_session,
}
use touchpad.Agent.Enqueue.{sent_of}

-- What a callback is on its way with: nothing, touches, or the button.
pub data Flight : Type 0 where
  grounded : Flight
  touching : ℕ → List MtTouch → Flight
  clicking : Flight

-- `contact_callback`, up to the mutex.
unfoldable pub contact_arrives : Option (List MtTouch) → ℕ → ℕ → Agent → Agent × Flight
contact_arrives none touch_count device_time a =
    let a' : Agent = record a { captured = (a.captured + 1) % 2 ^ 64 } in
    if not a.connected
    then (a', grounded)
    else if ltb 0 touch_count
    then (record a' { dropped = (a.dropped + 1) % 2 ^ 64 }, grounded)
    else (a', touching device_time [])
contact_arrives (some touches) touch_count device_time a =
    let a' : Agent = record a { captured = (a.captured + 1) % 2 ^ 64 } in
    if not a.connected
    then (a', grounded)
    else if ltb max_contacts touch_count
    then (record a' { dropped = (a.dropped + 1) % 2 ^ 64 }, grounded)
    else (a', touching device_time (take touch_count touches))

-- `button_callback`, up to the mutex.
unfoldable pub button_arrives : ℕ → ℕ → Agent → Agent × Flight
unfolding count_button
button_arrives pressed released a =
    let a' = count_button pressed released a in
    (a', if not a'.connected then grounded else clicking)

-- The rest of either.
unfoldable pub lands : List ℕ → ℕ → Flight → Agent → Agent
unfolding capture_touches click
lands bytes now grounded a = a
lands bytes now (touching device_time touches) a = capture_touches bytes now device_time touches a
lands bytes now clicking a = click bytes now a

-- Where `sender_main` is: without a connection; in front of its HELLO, of its RESET, and of the start of
-- the session; at the head of its loop, in `queue_pop`, and in front of `send_all`; and in a call of
-- `send_all` that does not return.
pub data Sender : Type 0 where
  closed opened greeted ready streaming waiting blocked : Sender
  sending : WireMessage → Sender

-- `flights` are the callbacks that wait for the mutex of the frame, `wire` is what the current
-- connection has carried, or the last one.
pub record System : Type 0 where
  pub agent : Agent
  pub flights : List Flight
  pub sender : Sender
  pub wire : List ℕ

abbrev pub leave : System → System
leave s = record s { agent = end_session s.agent; sender = closed }

-- Where the sender is behind a call of `send_all`.
abbrev pub behind_control : Sender → Option Bool → Sender
behind_control next none = blocked
behind_control next (some true) = next
behind_control next (some false) = closed

abbrev pub after_control : Sender → Progress × Agent → System → System
after_control next ((answer, sent), a) s = record s {
  agent = a;
  sender = behind_control next answer;
  wire = s.wire ++ sent;
}

abbrev pub after_pop : Option WireMessage × MessageQueue → System → System
after_pop (none, queue) s = leave (record s { agent = record s.agent { queue = queue } })
after_pop (some m, queue) s = record s {
  agent = record s.agent { queue = queue };
  sender = sending m;
}

abbrev pub after_send : Progress → System → System
after_send (none, sent) s = record s { sender = blocked; wire = s.wire ++ sent }
after_send (some true, sent) s = record s { sender = streaming; wire = s.wire ++ sent }
after_send (some false, sent) s = leave (record s { wire = s.wire ++ sent })

-- The next call of `sender_main`: `running` is what the flag of the agent is then, `answers` what `send`
-- answers. A connection that cannot be made leaves everything as it is.
unfoldable pub sender_turn : Bool → List ℕ → ℕ → List Sent → Sender → System → System
unfolding open_session send_control start_session end_session queue_pop send_all
sender_turn running bytes now answers closed s =
    if running then record s { agent = open_session s.agent; sender = opened; wire = [] } else s
sender_turn running bytes now answers opened s =
    after_control greeted (send_control bytes now answers (code hello) s.agent) s
sender_turn running bytes now answers greeted s =
    after_control ready (send_control bytes now answers (code reset) s.agent) s
sender_turn running bytes now answers ready s = record s {
  agent = start_session s.agent;
  sender = streaming;
}
sender_turn running bytes now answers streaming s =
    if running && not s.agent.reconnect_requested then record s { sender = waiting } else leave s
sender_turn running bytes now answers waiting s = after_pop (queue_pop s.agent.queue) s
sender_turn running bytes now answers (sending m) s = after_send (send_all answers (sent_of m)) s
sender_turn running bytes now answers blocked s = s

pub data Move : Type 0 where
  contact : Option (List MtTouch) → ℕ → ℕ → Move
  button : ℕ → ℕ → Move
  land : ℕ → List ℕ → ℕ → Move
  turn : Bool → List ℕ → ℕ → List Sent → Move

-- One more callback waits, if it has got as far.
abbrev pub wait : Flight → List Flight → List Flight
wait grounded flights = flights
wait (touching device_time touches) flights = flights ++ (touching device_time touches ∷ [])
wait clicking flights = flights ++ (clicking ∷ [])

-- The callback at a place waits no more.
abbrev pub leave_out : List Flight → ℕ → List Flight
leave_out [] k = []
leave_out (flight ∷ flights) zero = flights
leave_out (flight ∷ flights) (suc k) = flight ∷ leave_out flights k

-- A callback that waits gets the mutex, whichever it is.
abbrev pub land_at : ℕ → List ℕ → ℕ → System → System
land_at k bytes now s = record s {
  agent = lands bytes now (get_or s.flights k grounded) s.agent;
  flights = leave_out s.flights k;
}

abbrev pub arrive : Agent × Flight → System → System
arrive (a, flight) s = record s { agent = a; flights = wait flight s.flights }

unfoldable pub step : Move → System → System
unfolding contact_arrives button_arrives lands sender_turn
step (contact touches touch_count device_time) s =
    arrive (contact_arrives touches touch_count device_time s.agent) s
step (button pressed released) s = arrive (button_arrives pressed released s.agent) s
step (land k bytes now) s = land_at k bytes now s
step (turn running bytes now answers) s = sender_turn running bytes now answers s.sender s

unfoldable pub run : List Move → System → System
unfolding step
run [] s = s
run (m ∷ moves) s = run moves (step m s)

-- The agent as `main` starts it, with the threshold of its settings.
abbrev pub new_agent : ℕ → Agent
new_agent pressure_threshold = record {
  queue = record { items = replicate queue_capacity zero_message; head = 0; count = 0 };
  connected = false;
  reconnect_requested = false;
  sequence = 0;
  captured = 0;
  dropped = 0;
  reconnects = 0;
  physical_button_down = false;
  button_events = 0;
  pressure_button_down = false;
  pressure_press_frames = 0;
  pressure_button_events = 0;
  pressure_threshold = pressure_threshold;
  latest_frame = zero_frame;
}

abbrev pub new_system : ℕ → System
new_system pressure_threshold = record {
  agent = new_agent pressure_threshold;
  flights = [];
  sender = closed;
  wire = [];
}
