-- ===== src/Agent/Runs.antt =====
-- mac/Agent/main.c: what a connection carries, however the callbacks and `sender_main` take turns.
use touchpad.Base.{
  ℕ, zero, suc, ap, get_or, All-append, All-get_or, ◌+◌, ◌%◌, ◌^◌, ◌<◌, ◌≡◌, sym, refl, subst, ◌⊎◌,
  inl, inr, Bool, true, false, not, ltb, if◌then◌else◌, arith, Option, none, some, List, [], ◌∷◌,
  take, length-take, All, All-take, Bool-cases,
}
use touchpad.Wire.Types.{max_contacts, message_frame}
use touchpad.Wire.RoundTrip.{IsSendable}
use touchpad.Agent.Fifo.{IsQueue}
use touchpad.Agent.Types.{Agent}
use touchpad.Agent.Capture.{MtTouch, count_button}
use touchpad.Agent.Touches.{IsTouch}
use touchpad.Agent.Order.{Begun, Stage, greets, resets, streams}
use touchpad.Agent.Threads.{
  Flight, grounded, touching, clicking, closed, System, Move, contact, button, land, turn, arrive,
  wait, leave_out, land_at, Sender, opened, greeted, ready, streaming, waiting, blocked, sending,
  contact_arrives, button_arrives, step, run, new_system,
}
use touchpad.Agent.Landed.{IsFlight, lands-Landed}
use touchpad.Agent.Sessions.{
  InSession, Handshake, Good, Arrived, InSession-Arrived, InSession-Begun,
}
use touchpad.Mtp1.Types.{frame}
use touchpad.Agent.Controls.{control_frame-IsSendable}
use touchpad.Agent.Landing.{InSession-Landed, streams_now}
use touchpad.Agent.Turns.{turn-Good}

-- What the framework and the clock give is in the range of its C type.
abbrev pub IsMove : Move → Type 0
IsMove (contact none touch_count device_time) = device_time < 2 ^ 64
IsMove (contact (some touches) touch_count device_time) =
    (device_time < 2 ^ 64) × All IsTouch touches
IsMove (button pressed released) = Unit
IsMove (land k bytes now) = now < 2 ^ 64
IsMove (turn running bytes now answers) = now < 2 ^ 64

-- No callback is on its way where a connection is opened, and none gets the mutex in a session that was
-- given up for a full queue and is not yet over.
abbrev pub IsCalm : Move → System → Type 0
IsCalm (contact touches touch_count device_time) s = Unit
IsCalm (button pressed released) s = Unit
IsCalm (land k bytes now) s = streams_now s.sender ≡ true → s.agent.connected ≡ true
IsCalm (turn running bytes now answers) s = s.sender ≡ closed → s.flights ≡ []

abbrev pub IsCalmRun : List Move → System → Type 0
IsCalmRun [] s = Unit
IsCalmRun (m ∷ moves) s = IsMove m × IsCalm m s × IsCalmRun moves (step m s)

contact_arrives-if :
    (p q : Bool) (a b c d : Agent) (flight : Flight)
    → p ≡ not a.connected
    → Arrived a b grounded
    → Arrived a c grounded
    → (a.connected ≡ true → Arrived a d flight)
    → (q ≡ false → IsFlight flight)
    → let r : Agent × Flight =
        if p then (b, grounded) else if q then (c, grounded) else (d, flight) in
      Arrived a r.0 r.1 × IsFlight r.1
contact_arrives-if true q a b c d flight e x y z f = (x, tt)
contact_arrives-if false true a b c d flight e x y z f = (y, tt)
contact_arrives-if false false a b c d flight e x y z f = (z (ground (arith, e)), f refl)

-- Both forms of the callback change counters only.
counted :
    (a : Agent) (captured dropped : ℕ) (flight : Flight)
    → (flight ≡ grounded) ⊎ (a.connected ≡ true)
    → Arrived a (record a { captured = captured; dropped = dropped }) flight
counted a captured dropped flight passed = record {
  queue = refl;
  connected = refl;
  sequence = refl;
  latest = refl;
  passed = passed;
}

contact_arrives-Arrived :
    (touches : Option (List MtTouch)) (count device_time : ℕ) (a : Agent)
    → IsMove (contact touches count device_time)
    → let r = contact_arrives touches count device_time a in Arrived a r.0 r.1 × IsFlight r.1
unfolding contact_arrives
contact_arrives-Arrived none count device_time a d =
    contact_arrives-if (not a.connected) (ltb 0 count) a _ _ _ (touching device_time []) refl
      (counted a ((a.captured + 1) % 2 ^ 64) a.dropped grounded (inl refl))
      (counted a ((a.captured + 1) % 2 ^ 64) ((a.dropped + 1) % 2 ^ 64) grounded (inl refl))
      (λ c. counted a ((a.captured + 1) % 2 ^ 64) a.dropped (touching device_time []) (inr c))
      (λ few. (d, omega arith, tt))
contact_arrives-Arrived (some touches) count device_time a (d, h) =
    contact_arrives-if (not a.connected) (ltb max_contacts count) a _ _ _
      (touching device_time (take count touches)) refl
      (counted a ((a.captured + 1) % 2 ^ 64) a.dropped grounded (inl refl))
      (counted a ((a.captured + 1) % 2 ^ 64) ((a.dropped + 1) % 2 ^ 64) grounded (inl refl))
      (λ c.
        counted a ((a.captured + 1) % 2 ^ 64) a.dropped (touching device_time (take count touches))
          (inr c))
      (λ few. (d, ground (arith, few, length-take count touches), All-take IsTouch count touches h))

button_arrives-Arrived :
    (pressed released : ℕ) (a : Agent)
    → let r = button_arrives pressed released a in Arrived a r.0 r.1 × IsFlight r.1
unfolding button_arrives count_button
button_arrives-Arrived pressed released a = elim (Bool-cases (not a.connected)) [
  | inl off ↦ rw off (
    record { queue = refl; connected = refl; sequence = refl; latest = refl; passed = inl refl },
    tt,
  )
  | inr on ↦ rw on (
    record {
      queue = refl;
      connected = refl;
      sequence = refl;
      latest = refl;
      passed = inr (ground (arith, on));
    },
    tt,
  )
]

wait-All :
    (flight : Flight) (flights : List Flight)
    → IsFlight flight
    → All IsFlight flights
    → All IsFlight (wait flight flights)
wait-All grounded l f h = h
wait-All (touching d ts) l f h = All-append IsFlight l (touching d ts ∷ []) h (f, tt)
wait-All clicking l f h = All-append IsFlight l (clicking ∷ []) h (f, tt)

leave_out-All :
    (flights : List Flight) (k : ℕ) → All IsFlight flights → All IsFlight (leave_out flights k)
leave_out-All [] k h = h
leave_out-All (f ∷ flights) zero h = h.1
leave_out-All (f ∷ flights) (suc k) h = (h.0, leave_out-All flights k h.1)

leave_out-empty : (flights : List Flight) (k : ℕ) → flights ≡ [] → leave_out flights k ≡ []
leave_out-empty [] k e = refl
leave_out-empty (f ∷ flights) k e = absurd (cc)

Handshake-left :
    (st : Stage) (a : Agent) (flights : List Flight) (k : ℕ) (bytes : List ℕ)
    → Handshake st a flights bytes
    → Handshake st a (leave_out flights k) bytes
Handshake-left st a flights k bytes h = record {
  start = h.start;
  sent = h.sent;
  no_flight = leave_out-empty flights k h.no_flight;
  connected = h.connected;
  queue = h.queue;
  order = h.order;
  stage = h.stage;
  number = h.number;
  wire = h.wire;
}

-- One callback less.
InSession-left :
    (sender : Sender) (a : Agent) (flights : List Flight) (k : ℕ) (bytes : List ℕ)
    → InSession sender a flights bytes
    → InSession sender a (leave_out flights k) bytes
InSession-left closed a l k bytes h = h
InSession-left opened a l k bytes h = Handshake-left greets a l k bytes h
InSession-left greeted a l k bytes h = Handshake-left resets a l k bytes h
InSession-left ready a l k bytes h = Handshake-left streams a l k bytes h
InSession-left streaming a l k bytes h = h
InSession-left waiting a l k bytes h = h
InSession-left blocked a l k bytes h = h
InSession-left (sending m) a l k bytes h = h

arrive-Good :
    (r : Agent × Flight) (s : System)
    → Good s
    → Arrived s.agent r.0 r.1 × IsFlight r.1
    → Good (arrive r s)
arrive-Good (a, air) s g (r, f) = record {
  queue = subst IsQueue (sym r.queue) g.queue;
  latest = subst (IsSendable message_frame) (sym r.latest) g.latest;
  flights = wait-All air s.flights f g.flights;
  session = InSession-Arrived s.sender s.agent a air s.flights s.wire r g.session;
}

land-Good :
    (k : ℕ) (bytes : List ℕ) (now : ℕ) (s : System)
    → now < 2 ^ 64
    → Good s
    → (streams_now s.sender ≡ true → s.agent.connected ≡ true)
    → Good (land_at k bytes now s)
land-Good k bytes now s t g on =
    let flight = get_or s.flights k grounded in
    elim (lands-Landed bytes now flight s.agent t
      (All-get_or IsFlight s.flights k grounded g.flights tt) g.queue g.latest) [
        | inl (down, same) ↦ record {
          queue = subst (λ (a : Agent). IsQueue a.queue) (sym same) g.queue;
          latest =
              subst (λ (a : Agent). IsSendable message_frame a.latest_frame) (sym same) g.latest;
          flights = leave_out-All s.flights k g.flights;
          session =
              subst (λ (a : Agent). InSession s.sender a (leave_out s.flights k) s.wire) (sym same)
                (InSession-left s.sender s.agent s.flights k s.wire g.session);
        }
        | inr (air, r) ↦ record {
          queue = r.queue;
          latest = r.latest;
          flights = leave_out-All s.flights k g.flights;
          session =
              InSession-Landed s.sender s.agent _ s.flights k s.wire
                (λ e. air (ap (λ l. get_or l k grounded) e)) on r g.session;
        }
      ]

-- Each step keeps the invariant.
pub step-Good : (m : Move) (s : System) → Good s → IsMove m → IsCalm m s → Good (step m s)
unfolding step
step-Good (contact touches count device_time) s g h calm =
    arrive-Good (contact_arrives touches count device_time s.agent) s g
      (contact_arrives-Arrived touches count device_time s.agent h)
step-Good (button pressed released) s g h calm =
    arrive-Good (button_arrives pressed released s.agent) s g
      (button_arrives-Arrived pressed released s.agent)
step-Good (land k bytes now) s g h calm = land-Good k bytes now s h g calm
step-Good (turn running bytes now answers) s g h calm =
    turn-Good running bytes now answers s.sender s h g g.session calm

pub run-Good : (moves : List Move) (s : System) → Good s → IsCalmRun moves s → Good (run moves s)
unfolding run
run-Good [] s g h = g
run-Good (m ∷ moves) s g (h, calm, rest) = run-Good moves (step m s) (step-Good m s g h calm) rest

-- However callbacks of touches and of the button, any number of which wait for the mutex at once and get
-- it in any order, full queues, and the steps of the sender with the connections that it opens, gives up
-- and loses follow one another, and whatever `send` answers: what a connection has carried is at any time
-- a beginning of a HELLO, a RESET and FRAMEs, whole messages one behind the other, with consecutive
-- sequence numbers modulo 2^32. The arguments of the callbacks are in the ranges of their types; no
-- callback is on its way when a connection is opened; and none gets the mutex between a full queue, which
-- gives the session up, and the sender's leaving of it.
pub run-Begun :
    (moves : List Move) (s : System) → Good s → IsCalmRun moves s → Begun (run moves s).wire
run-Begun moves s g h =
    let r = run-Good moves s g h in
    let t = run moves s in InSession-Begun t.sender t.agent t.flights t.wire r.session

pub new_system-Good : (pressure_threshold : ℕ) → Good (new_system pressure_threshold)
new_system-Good pressure_threshold = record {
  queue = record { size = refl; head = omega arith; count = omega arith };
  latest = control_frame-IsSendable frame 0 0 (omega arith) (omega arith);
  flights = tt;
  session = (refl, (0, [], [], tt, refl));
}
