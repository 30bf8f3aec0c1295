-- ===== src/Agent/Turns.antt =====
-- mac/Agent/main.c: each step of `sender_main` keeps a connection in order.
use touchpad.Base.{ℕ, ◌^◌, ◌<◌, ◌≡◌, refl, Bool, not, ◌&&◌, List, []}
use touchpad.Agent.Queue.{queue_pop}
use touchpad.Agent.Send
use touchpad.Agent.Send.{
  Progress, SendsPrefix, send_all, send_control, send_all-SendsPrefix, open_session, start_session,
  end_session,
}
use touchpad.Agent.Fifo.{queue_pop-Popped}
use touchpad.Agent.Enqueue.{sent_of}
use touchpad.Agent.Order.{greets, resets}
use touchpad.Agent.Threads.{
  Sender, closed, opened, greeted, ready, streaming, waiting, blocked, sending, System, sender_turn,
}
use touchpad.Agent.Sessions.{InSession, Good}
use touchpad.Agent.Steps.{start-Good, test-Good, open-Good}
use touchpad.Agent.Greeting.{control_turn-Good}
use touchpad.Agent.Sending.{pop-Good, send-queued}

-- Each step of `sender_main`, when no callback is on its way where a connection is opened.
pub turn-Good :
    (running : Bool) (bytes : List ℕ) (now : ℕ) (answers : List Send.Sent) (sender : Sender)
    (s : System)
    → now < 2 ^ 64
    → Good s
    → InSession sender s.agent s.flights s.wire
    → (sender ≡ closed → s.flights ≡ [])
    → Good (sender_turn running bytes now answers sender s)
unfolding sender_turn
turn-Good running bytes now answers closed s t g h calm = open-Good running s g h.0 (calm refl)
turn-Good running bytes now answers opened s t g h calm =
    control_turn-Good greets greeted s bytes now answers g h (λ w k. k) t
turn-Good running bytes now answers greeted s t g h calm =
    control_turn-Good resets ready s bytes now answers g h (λ w k. k) t
turn-Good running bytes now answers ready s t g h calm = start-Good s g h
turn-Good running bytes now answers streaming s t g h calm =
    test-Good (running && not s.agent.reconnect_requested) s g h
turn-Good running bytes now answers waiting s t g h calm =
    pop-Good (queue_pop s.agent.queue) s g h (queue_pop-Popped s.agent.queue g.queue)
turn-Good running bytes now answers (sending m) s t g h calm =
    send-queued m s g (send_all answers (sent_of m)) h.start h.sent h.queued h.order h.stage h.wire
      h.holds h.goes_on (send_all-SendsPrefix answers (sent_of m))
turn-Good running bytes now answers blocked s t g h calm = g
