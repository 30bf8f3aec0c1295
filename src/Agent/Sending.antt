-- ===== src/Agent/Sending.antt =====
-- mac/Agent/main.c: the loop of `sender_main` over the queue keeps a connection in order.
use mathlib.Core.List.{append-nil, append_assoc}
use touchpad.Base.{
  ℕ, ◌≡◌, ◌∙◌, ap, sym, refl, subst, inl, inr, Bool, true, false, Option, none, some, List, [], ◌∷◌,
  ◌++◌,
}
use touchpad.Wire.Types.{Frame}
use touchpad.Wire.RoundTrip.{sent_bytes}
use touchpad.Mtp1.Types.{MessageType}
use touchpad.Mtp1.Valid.{code}
use touchpad.Mtp1.Feed.{Sent, sent_stream}
use touchpad.Agent.Types.{WireMessage, MessageQueue}
use touchpad.Agent.Send.{Progress, SendsPrefix}
use touchpad.Agent.Fifo.{contents, Popped}
use touchpad.Agent.Enqueue.{sent_of}
use touchpad.Agent.Order.{
  greets, streams, next_stage, InOrder, stage_after, stage_after-append, Holds,
}
use touchpad.Agent.Threads.{System, after_pop, after_send}
use touchpad.Agent.Sessions.{Streaming, GoesOn, Good, Streaming-Begun}
use touchpad.Agent.Steps.{Begun-more, front_order, leave-Good}

-- The sender takes a message from the queue.
pub pop-Good :
    (r : Option WireMessage × MessageQueue) (s : System)
    → Good s
    → Streaming [] s.agent s.wire
    → Popped s.agent.queue r
    → Good (after_pop r s)
pop-Good (none, queue) s g h (i, p) =
    leave-Good (record s { agent = record s.agent { queue = queue } }) i g.latest g.flights
      (Streaming-Begun [] s.agent s.wire h)
pop-Good (some m, queue) s g h (i, inl (empty, nothing, p)) = absurd (cc)
pop-Good (some m, queue) s g h (i, inr (m', same, e)) =
    let first : m' ≡ m = cc in
    record {
      queue = i;
      latest = g.latest;
      flights = g.flights;
      session = record {
        start = h.start;
        sent = h.sent;
        queued = h.queued;
        order = h.order;
        stage = h.stage;
        wire = h.wire;
        holds =
            subst (λ (ms : List WireMessage). Holds ms h.queued)
              (e ∙ ap (λ (k : WireMessage). k ∷ contents queue) first) h.holds;
        goes_on = h.goes_on;
      };
    }

-- And sends it: whole, and then the loop goes on, or a beginning of it.
module _ (m : WireMessage) (s : System) (g : Good s) where
  send-Good :
      (answer : Option Bool) (sent : List ℕ)
      → (start : ℕ) (l q : List Sent) (t : MessageType) (f : Frame)
      → InOrder greets start (l ++ ((t, f) ∷ q))
      → stage_after greets l ≡ streams
      → s.wire ≡ sent_stream l
      → Holds (contents s.agent.queue) q
      → GoesOn start (l ++ ((t, f) ∷ q)) s.agent
      → SendsPrefix (answer, sent) (sent_bytes (code t) f)
      → Good (after_send (answer, sent) s)
  send-Good none sent start l q t f order stage wire holds goes_on (rest, e, p) = record {
    queue = g.queue;
    latest = g.latest;
    flights = g.flights;
    session = (
      start,
      l ++ ((t, f) ∷ []),
      rest,
      front_order start l q t f order,
      Begun-more s.wire sent rest start l q t f wire e order,
    );
  }
  send-Good (some false) sent start l q t f order stage wire holds goes_on (rest, e, p) =
      leave-Good (record s { wire = s.wire ++ sent }) g.queue g.latest g.flights
        (
          start,
          l ++ ((t, f) ∷ []),
          rest,
          front_order start l q t f order,
          Begun-more s.wire sent rest start l q t f wire e order,
        )
  send-Good (some true) sent start l q t f order stage wire holds goes_on
        (rest, e, inr (short, p)) =
      absurd (short refl)
  send-Good (some true) sent start l q t f order stage wire holds goes_on
        (rest, e, inl (all_sent, empty)) =
      let assoc = append_assoc l ((t, f) ∷ []) q in
      record {
        queue = g.queue;
        latest = g.latest;
        flights = g.flights;
        session = record {
          start = start;
          sent = l ++ ((t, f) ∷ []);
          queued = q;
          order = subst (InOrder greets start) (sym assoc) order;
          stage = stage_after-append greets l ((t, f) ∷ []) ∙ ap next_stage stage;
          wire =
              sym (append-nil (s.wire ++ sent))
              ∙ ap (λ (r : List ℕ). (s.wire ++ sent) ++ r) (sym empty)
              ∙ Begun-more s.wire sent rest start l q t f wire e order;
          holds = holds;
          goes_on = subst (λ (all : List Sent). GoesOn start all s.agent) (sym assoc) goes_on;
        };
      }

  pub send-queued :
      (p : Progress) (start : ℕ) (l q : List Sent)
      → InOrder greets start (l ++ q)
      → stage_after greets l ≡ streams
      → s.wire ≡ sent_stream l
      → Holds ((m ∷ []) ++ contents s.agent.queue) q
      → GoesOn start (l ++ q) s.agent
      → SendsPrefix p (sent_of m)
      → Good (after_send p s)
  send-queued p start l [] order stage wire holds goes_on sends = elim holds [ ]
  send-queued (answer, sent) start l ((t, f) ∷ q) order stage wire (e, holds) goes_on sends =
      send-Good answer sent start l q t f order stage wire holds goes_on
        (subst (SendsPrefix (answer, sent)) e sends)
