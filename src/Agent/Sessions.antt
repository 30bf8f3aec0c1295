-- ===== src/Agent/Sessions.antt =====
-- mac/Agent/main.c: what holds between two steps of the callbacks and of `sender_main`.
use mathlib.Core.List.{append-nil}
use touchpad.Base.{
  ℕ, ◌≡◌, ◌∙◌, ap, sym, subst, ◌⊎◌, inl, inr, true, false, List, [], ◌∷◌, ◌++◌, All,
}
use touchpad.Wire.Types.{message_frame}
use touchpad.Wire.RoundTrip.{IsSendable}
use touchpad.Mtp1.Feed.{Sent, sent_stream}
use touchpad.Agent.Types.{WireMessage, MessageQueue, Agent}
use touchpad.Agent.Fifo.{IsQueue, contents}
use touchpad.Agent.Order.{
  Stage, greets, resets, streams, InOrder, stage_after, number_after, InOrder-front, Begun, Holds,
}
use touchpad.Agent.Threads.{
  Flight, grounded, Sender, closed, opened, greeted, ready, streaming, waiting, blocked, sending,
  System, wait,
}
use touchpad.Agent.Landed.{IsFlight}

-- In front of a session: no callback, no connection, an empty queue, and on the wire a beginning of the
-- greeting, up to the stage.
pub record Handshake (st : Stage) (a : Agent) (flights : List Flight) (bytes : List ℕ)
    : Type 0 where
  pub start : ℕ
  pub sent : List Sent
  pub no_flight : flights ≡ []
  pub connected : a.connected ≡ false
  pub queue : contents a.queue ≡ []
  pub order : InOrder greets start sent
  pub stage : stage_after greets sent ≡ st
  pub number : number_after start sent ≡ a.sequence
  pub wire : bytes ≡ sent_stream sent

-- A session goes on with the number of the last message, or it was given up.
abbrev pub GoesOn : ℕ → List Sent → Agent → Type 0
GoesOn start all a =
    ((a.connected ≡ true) × (number_after start all ≡ a.sequence)) ⊎ (a.connected ≡ false)

-- In a session: what is on the wire and what waits are in order, one behind the other.
pub record Streaming (pending : List WireMessage) (a : Agent) (bytes : List ℕ) : Type 0 where
  pub start : ℕ
  pub sent : List Sent
  pub queued : List Sent
  pub order : InOrder greets start (sent ++ queued)
  pub stage : stage_after greets sent ≡ streams
  pub wire : bytes ≡ sent_stream sent
  pub holds : Holds (pending ++ contents a.queue) queued
  pub goes_on : GoesOn start (sent ++ queued) a

abbrev pub InSession : Sender → Agent → List Flight → List ℕ → Type 0
InSession closed a flights bytes = (a.connected ≡ false) × Begun bytes
InSession opened a flights bytes = Handshake greets a flights bytes
InSession greeted a flights bytes = Handshake resets a flights bytes
InSession ready a flights bytes = Handshake streams a flights bytes
InSession streaming a flights bytes = Streaming [] a bytes
InSession waiting a flights bytes = Streaming [] a bytes
InSession blocked a flights bytes = Begun bytes
InSession (sending m) a flights bytes = Streaming (m ∷ []) a bytes

pub record Good (s : System) : Type 0 where
  pub queue : IsQueue s.agent.queue
  pub latest : IsSendable message_frame s.agent.latest_frame
  pub flights : All IsFlight s.flights
  pub session : InSession s.sender s.agent s.flights s.wire

pub Streaming-Begun :
    (pending : List WireMessage) (a : Agent) (bytes : List ℕ)
    → Streaming pending a bytes
    → Begun bytes
Streaming-Begun pending a bytes h = (
  h.start,
  h.sent,
  [],
  InOrder-front greets h.start h.sent h.queued h.order,
  append-nil bytes ∙ h.wire,
)

Handshake-Begun :
    (st : Stage) (a : Agent) (flights : List Flight) (bytes : List ℕ)
    → Handshake st a flights bytes
    → Begun bytes
Handshake-Begun st a flights bytes h = (h.start, h.sent, [], h.order, append-nil bytes ∙ h.wire)

-- In every state the wire carries a beginning of a connection in order.
pub InSession-Begun :
    (sender : Sender) (a : Agent) (flights : List Flight) (bytes : List ℕ)
    → InSession sender a flights bytes
    → Begun bytes
InSession-Begun closed a flights bytes h = h.1
InSession-Begun opened a flights bytes h = Handshake-Begun greets a flights bytes h
InSession-Begun greeted a flights bytes h = Handshake-Begun resets a flights bytes h
InSession-Begun ready a flights bytes h = Handshake-Begun streams a flights bytes h
InSession-Begun streaming a flights bytes h = Streaming-Begun [] a bytes h
InSession-Begun waiting a flights bytes h = Streaming-Begun [] a bytes h
InSession-Begun blocked a flights bytes h = h
InSession-Begun (sending m) a flights bytes h = Streaming-Begun (m ∷ []) a bytes h

-- A callback that arrives changes none of what the session is about, and comes through only when the
-- agent is connected.
pub record Arrived (a a' : Agent) (flight : Flight) : Type 0 where
  pub queue : a'.queue ≡ a.queue
  pub connected : a'.connected ≡ a.connected
  pub sequence : a'.sequence ≡ a.sequence
  pub latest : a'.latest_frame ≡ a.latest_frame
  pub passed : (flight ≡ grounded) ⊎ (a.connected ≡ true)

Handshake-Arrived :
    (st : Stage) (a a' : Agent) (flight : Flight) (flights : List Flight) (bytes : List ℕ)
    → Arrived a a' flight
    → Handshake st a flights bytes
    → Handshake st a' (wait flight flights) bytes
Handshake-Arrived st a a' flight flights bytes r h = record {
  start = h.start;
  sent = h.sent;
  no_flight = elim r.passed [
    | inl g ↦ ap (λ f. wait f flights) g ∙ h.no_flight
    | inr c ↦ absurd (cc (c, h.connected))
  ];
  connected = r.connected ∙ h.connected;
  queue = ap contents r.queue ∙ h.queue;
  order = h.order;
  stage = h.stage;
  number = h.number ∙ sym r.sequence;
  wire = h.wire;
}

Streaming-Arrived :
    (pending : List WireMessage) (a a' : Agent) (flight : Flight) (bytes : List ℕ)
    → Arrived a a' flight
    → Streaming pending a bytes
    → Streaming pending a' bytes
Streaming-Arrived pending a a' flight bytes r h = record {
  start = h.start;
  sent = h.sent;
  queued = h.queued;
  order = h.order;
  stage = h.stage;
  wire = h.wire;
  holds =
      subst (λ (q : MessageQueue). Holds (pending ++ contents q) h.queued) (sym r.queue) h.holds;
  goes_on = elim h.goes_on [
    | inl g ↦ inl (r.connected ∙ g.0, g.1 ∙ sym r.sequence)
    | inr g ↦ inr (r.connected ∙ g)
  ];
}

pub InSession-Arrived :
    (sender : Sender) (a a' : Agent) (flight : Flight) (flights : List Flight) (bytes : List ℕ)
    → Arrived a a' flight
    → InSession sender a flights bytes
    → InSession sender a' (wait flight flights) bytes
InSession-Arrived closed a a' flight l bytes r h = (r.connected ∙ h.0, h.1)
InSession-Arrived opened a a' flight l bytes r h = Handshake-Arrived greets a a' flight l bytes r h
InSession-Arrived greeted a a' flight l bytes r h = Handshake-Arrived resets a a' flight l bytes r h
InSession-Arrived ready a a' flight l bytes r h = Handshake-Arrived streams a a' flight l bytes r h
InSession-Arrived streaming a a' flight l bytes r h = Streaming-Arrived [] a a' flight bytes r h
InSession-Arrived waiting a a' flight l bytes r h = Streaming-Arrived [] a a' flight bytes r h
InSession-Arrived blocked a a' flight l bytes r h = h
InSession-Arrived (sending m) a a' flight l bytes r h =
    Streaming-Arrived (m ∷ []) a a' flight bytes r h
