-- ===== src/Agent/Steps.antt =====
-- mac/Agent/main.c: the steps of `sender_main` that end, open and start a connection.
use mathlib.Core.List.{append-nil, append_assoc}
use touchpad.Base.{
  ℕ, ◌≡◌, ◌∙◌, ap, sym, refl, subst, inl, Bool, true, false, if◌then◌else◌, arith, List, [], ◌∷◌,
  ◌++◌, All,
}
use touchpad.Wire.Types.{Frame, message_frame}
use touchpad.Wire.RoundTrip.{IsSendable, sent_bytes}
use touchpad.Mtp1.Types.{MessageType, frame}
use touchpad.Mtp1.Valid.{code}
use touchpad.Mtp1.Feed.{Sent, sent_stream}
use touchpad.Agent.Types.{WireMessage, MessageQueue}
use touchpad.Agent.Queue.{queue_clear}
use touchpad.Agent.Send.{open_session, start_session, end_session}
use touchpad.Agent.Fifo.{IsQueue}
use touchpad.Agent.Controls.{control_frame-IsSendable}
use touchpad.Agent.Order.{
  greets, streams, InOrder, number_after, InOrder-front, sent_stream-append, Begun, Holds,
}
use touchpad.Agent.Threads.{opened, streaming, waiting, System, leave}
use touchpad.Agent.Landed.{IsFlight}
use touchpad.Agent.Sessions.{Handshake, Streaming, Good, Streaming-Begun}

-- One more message behind those of a connection, of which `sent` is a beginning.
pub Begun-more :
    (bytes sent rest : List ℕ) (start : ℕ) (l m : List Sent) (t : MessageType) (f : Frame)
    → bytes ≡ sent_stream l
    → sent ++ rest ≡ sent_bytes (code t) f
    → InOrder greets start (l ++ ((t, f) ∷ m))
    → (bytes ++ sent) ++ rest ≡ sent_stream (l ++ ((t, f) ∷ []))
Begun-more bytes sent rest start l m t f wire e order =
    append_assoc bytes sent rest
    ∙ ap (λ (r : List ℕ). bytes ++ r) e
    ∙ ap (λ (r : List ℕ). r ++ sent_bytes (code t) f) wire
    ∙ ap (λ (r : List ℕ). sent_stream l ++ r) (sym (append-nil (sent_bytes (code t) f)))
    ∙ sym (sent_stream-append l ((t, f) ∷ []))

-- The messages up to one of them.
pub front_order :
    (start : ℕ) (l m : List Sent) (t : MessageType) (f : Frame)
    → InOrder greets start (l ++ ((t, f) ∷ m))
    → InOrder greets start (l ++ ((t, f) ∷ []))
front_order start l m t f order =
    InOrder-front greets start (l ++ ((t, f) ∷ [])) m
      (subst (InOrder greets start) (sym (append_assoc l ((t, f) ∷ []) m)) order)

cleared-IsQueue : (queue : MessageQueue) → IsQueue queue → IsQueue (queue_clear queue)
unfolding queue_clear
cleared-IsQueue queue i = record { size = i.size; head = omega arith; count = omega arith }

-- The sender gives up the connection.
pub leave-Good :
    (s : System)
    → IsQueue s.agent.queue
    → IsSendable message_frame s.agent.latest_frame
    → All IsFlight s.flights
    → Begun s.wire
    → Good (leave s)
unfolding end_session
leave-Good s i v f b = record {
  queue = cleared-IsQueue s.agent.queue i;
  latest = v;
  flights = f;
  session = (refl, b);
}

pub start-Good :
    (s : System)
    → Good s
    → Handshake streams s.agent s.flights s.wire
    → Good (record s { agent = start_session s.agent; sender = streaming })
unfolding start_session
start-Good s g h = record {
  queue = g.queue;
  latest = control_frame-IsSendable frame 0 0 (omega arith) (omega arith);
  flights = g.flights;
  session = record {
    start = h.start;
    sent = h.sent;
    queued = [];
    order = subst (InOrder greets h.start) (sym (append-nil h.sent)) h.order;
    stage = h.stage;
    wire = h.wire;
    holds = subst (λ (ms : List WireMessage). Holds ms []) (sym h.queue) tt;
    goes_on = inl (refl, ap (number_after h.start) (append-nil h.sent) ∙ h.number);
  };
}

pub test-Good :
    (b : Bool) (s : System)
    → Good s
    → Streaming [] s.agent s.wire
    → Good (if b then record s { sender = waiting } else leave s)
test-Good true s g h = record {
  queue = g.queue;
  latest = g.latest;
  flights = g.flights;
  session = h;
}
test-Good false s g h =
    leave-Good s g.queue g.latest g.flights (Streaming-Begun [] s.agent s.wire h)

pub open-Good :
    (b : Bool) (s : System)
    → Good s
    → s.agent.connected ≡ false
    → s.flights ≡ []
    → Good (if b then record s { agent = open_session s.agent; sender = opened; wire = [] } else s)
unfolding open_session queue_clear
open-Good false s g c calm = g
open-Good true s g c calm = record {
  queue = record { size = g.queue.size; head = omega arith; count = omega arith };
  latest = g.latest;
  flights = g.flights;
  session = record {
    start = s.agent.sequence;
    sent = [];
    no_flight = calm;
    connected = c;
    queue = refl;
    order = tt;
    stage = refl;
    number = refl;
    wire = refl;
  };
}
