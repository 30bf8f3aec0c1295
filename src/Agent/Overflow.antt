-- ===== src/Agent/Overflow.antt =====
-- mac/Agent/main.c and windows/receiver/TouchSession.cpp: callbacks that wait when the queue is full.
use touchpad.Base.{
  ℕ, zero, suc, ◌+◌, ◌%◌, ◌^◌, ◌≤◌, ◌<◌, ◌≡◌, ◌≢◌, ◌∙◌, ap, sym, refl, inl, inr, true, arith, some,
  List, [], ◌∷◌, ◌++◌, length, length-append,
}
use touchpad.Wire.Types.{Frame, message_frame, max_message_size}
use touchpad.Wire.RoundTrip.{IsSendable, sent_bytes, length-sent_bytes}
use touchpad.Mtp1.Types.{frame, err, sequence_discontinuity}
use touchpad.Mtp1.FromMac.{message_of}
use touchpad.Session.Types.{TouchSession}
use touchpad.Session.Process.{process}
use touchpad.Agent.Types.{WireMessage, Agent, queue_capacity}
use touchpad.Agent.Queue.{queue_pop}
use touchpad.Agent.Send.{Sent, send_all}
use touchpad.Agent.Fifo.{IsQueue, contents, read_items, queue_pop-Popped}
use touchpad.Agent.Enqueue.{sent_of, sent_size-le}
use touchpad.Agent.Controls.{send_all-whole}
use touchpad.Agent.Capture.{click}
use touchpad.Agent.Landed.{Landed, click-Landed}
use touchpad.Agent.Threads.{
  System, Flight, clicking, waiting, sending, land, turn, step, run, sender_turn, lands, after_pop,
  after_send,
}

length-read_items : (n i : ℕ) (items : List WireMessage) → length (read_items n i items) ≡ n
length-read_items zero i items = refl
length-read_items (suc n) i items = ap suc (length-read_items n ((i + 1) % queue_capacity) items)

-- A click on a full queue empties it.
click-full : (a a' : Agent) → Landed a a' → a.queue.count ≡ queue_capacity → contents a'.queue ≡ []
click-full a a' r full = elim r.enqueued [
  | inl (pushed, same, d) ↦
      let more : a'.queue.count ≡ a.queue.count + 1 =
        sym (length-read_items a'.queue.count a'.queue.head a'.queue.items)
        ∙ ap length pushed
        ∙ length-append (contents a.queue) (r.message ∷ [])
        ∙ ap (λ n. n + 1) (length-read_items a.queue.count a.queue.head a.queue.items) in
      absurd (omega (arith, more, full, r.queue.count))
  | inr (empty, given_up, asked, d, h) ↦ empty
]

-- A click on an empty queue puts its message there alone.
click-empty :
    (a a' : Agent)
    → Landed a a'
    → contents a.queue ≡ []
    → (m : WireMessage) × (f : Frame) × (contents a'.queue ≡ m ∷ [])
      × (sent_of m ≡ sent_bytes message_frame f)
      × (f.sequence ≡ (a.sequence + 1) % 2 ^ 32)
      × IsSendable message_frame f
      × IsQueue a'.queue
click-empty a a' r empty = elim r.enqueued [
  | inl (pushed, same, d) ↦ (
    r.message,
    r.frame,
    pushed ∙ ap (λ (l : List WireMessage). l ++ (r.message ∷ [])) empty,
    r.bytes,
    r.numbered,
    r.sendable,
    r.queue,
  )
  | inr (gone, given_up, asked, d, full) ↦
      let none_there : a.queue.count ≡ 0 =
        sym (length-read_items a.queue.count a.queue.head a.queue.items) ∙ ap length empty in
      absurd (omega (arith, none_there, full))
]

module _ (bytes : List ℕ) (now : ℕ) (answers : List Sent) where
  -- The sender takes the only message of the queue, and sends it whole.
  sent_alone :
      (a : Agent) (flights : List Flight) (wire : List ℕ) (m : WireMessage)
      → IsQueue a.queue
      → contents a.queue ≡ m ∷ []
      → (send_all answers (sent_of m)).0 ≡ some true
      → let go = turn true bytes now answers in
        (step go
          (step go (record { agent = a; flights = flights; sender = waiting; wire = wire }))).wire
        ≡ wire ++ sent_of m
  unfolding step sender_turn
  sent_alone a flights wire m i only whole =
      let s : System = record { agent = a; flights = flights; sender = waiting; wire = wire } in
      elim (queue_pop-Popped a.queue i).1 [
        | inl (empty, nothing, p) ↦ absurd (cc (empty, only))
        | inr (m', taken, e) ↦
            let same : m' ≡ m = cc (e, only) in
            let popped : queue_pop a.queue ≡ (some m, (queue_pop a.queue).1) =
              ap (λ o. (o, (queue_pop a.queue).1)) (taken ∙ ap some same) in
            ap (λ r. (step (turn true bytes now answers) (after_pop r s)).wire) popped
            ∙ ap
                (λ p.
                  (after_send p (record {
                    agent = record a { queue = (queue_pop a.queue).1 };
                    flights = flights;
                    sender = sending m;
                    wire = wire;
                  })).wire)
                (send_all-whole answers (sent_of m) whole)
      ]

  two_clicks :
      (a : Agent) (others : List Flight) (wire : List ℕ)
      → let go = turn true bytes now answers in
        run (land 0 bytes now ∷ land 0 bytes now ∷ go ∷ go ∷ []) (record {
          agent = a;
          flights = clicking ∷ clicking ∷ others;
          sender = waiting;
          wire = wire;
        })
        ≡ step go (
            step go (record {
              agent = click bytes now (click bytes now a);
              flights = others;
              sender = waiting;
              wire = wire;
            }))
  unfolding run step lands
  two_clicks a others wire = refl

  -- When two button callbacks wait for the mutex, the queue is full, and the sender is just entering
  -- `queue_pop`: the first gives the session up and clears the queue, and the second puts a frame into it
  -- that the sender still sends over the same connection. Its number is two behind the last one given,
  -- whatever the agent's state, as long as `send` takes a message whole; and a session of the receiver
  -- refuses it, unless it has seen the number just before, which belongs to the first and was never sent.
  pub run-overflow :
      (a : Agent) (others : List Flight) (wire : List ℕ) (s : TouchSession) (time : ℕ)
      → now < 2 ^ 64
      → IsQueue a.queue
      → a.queue.count ≡ queue_capacity
      → IsSendable message_frame a.latest_frame
      → ((l : List ℕ) → length l ≤ max_message_size → (send_all answers l).0 ≡ some true)
      → s.sequence_seen ≡ true
      → s.previous_sequence < 2 ^ 32
      → s.previous_sequence ≢ (a.sequence + 1) % 2 ^ 32
      → let go = turn true bytes now answers in
        let t = run (land 0 bytes now ∷ land 0 bytes now ∷ go ∷ go ∷ []) (record {
          agent = a;
          flights = clicking ∷ clicking ∷ others;
          sender = waiting;
          wire = wire;
        }) in
        (f : Frame) × (t.wire ≡ wire ++ sent_bytes message_frame f)
        × (f.sequence ≡ (a.sequence + 2) % 2 ^ 32)
        × ((process time (message_of frame f) s).0 ≡ err sequence_discontinuity)
  unfolding process
  run-overflow a others wire s time t i full v takes seen small gap =
      let first = click-Landed bytes now a t i v in
      let b = click bytes now a in
      let second = click-Landed bytes now b t first.queue first.latest in
      let c = click bytes now b in
      let (m, f, only, sent, number, sendable, i') =
        click-empty b c second (click-full a b first full) in
      let whole =
        takes (sent_of m)
          (omega (arith, ap length sent, length-sent_bytes sendable, sent_size-le f sendable)) in
      let numbered : f.sequence ≡ (a.sequence + 2) % 2 ^ 32 =
        omega (arith, number, first.sequence, first.numbered) in
      (
        f,
        ap (λ (u : System). u.wire) (two_clicks a others wire)
            ∙ sent_alone c others wire m i' only whole
            ∙ ap (λ (l : List ℕ). wire ++ l) sent,
        numbered,
        ground (arith, numbered, seen, small, gap),
      )
