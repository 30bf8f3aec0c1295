-- ===== src/Agent/Enqueue.antt =====
-- mac/Agent/main.c: what `enqueue_frame_locked` and `contact_callback` hand to the sender.
use touchpad.Base.{
  ℕ, ◌+◌, ◌%◌, ◌^◌, ◌≤◌, ◌<◌, ◌≡◌, ◌≢◌, sym, refl, ◌⊎◌, inl, inr, true, false, ◌&&◌, ◌||◌, ◌==◌,
  ◌!=◌, leb, arith, List, [], ◌∷◌, ◌++◌, take, drop, length, take-append, Bool-cases, bit_and,
}
use touchpad.Wire.Types.{
  Frame, max_message_size, message_frame, contact_tip, contact_in_range, contact_confidence,
}
use touchpad.Wire.Encode.{write}
use touchpad.Wire.RoundTrip.{
  IsSendable, sent_size, sent_bytes, length-sent_bytes, encode_message-sent,
}
use touchpad.Agent.Types.{WireMessage, Agent, queue_capacity}
use touchpad.Agent.Queue.{queue_clear, queue_push}
use touchpad.Agent.Capture.{
  enqueue_message, enqueue_frame_locked, request_reconnect, flags_for_state,
}
use touchpad.Agent.Fifo.{IsQueue, contents, queue_push-Pushed}

three_or_four : (state : ℕ) → (state == 3 || state == 4) ≡ true → (state ≡ 3) ⊎ (state ≡ 4)
three_or_four state h = elim (Bool-cases (state == 3)) [
  | inl e ↦ inl (ground (arith, e))
  | inr ne ↦ inr (ground (arith, h, ne))
]

-- The flags are known ones, always with confidence; the tip is set exactly in the states 3 and 4, and
-- only in a state in range.
pub flags_for_state-known :
    (state : ℕ)
    → (flags_for_state state < 8)
      × (bit_and (flags_for_state state) contact_confidence ≢ 0)
      × (((bit_and (flags_for_state state) contact_tip ≢ 0)
            × ((state ≡ 3) ⊎ (state ≡ 4))
            × (bit_and (flags_for_state state) contact_in_range ≢ 0))
          ⊎ ((bit_and (flags_for_state state) contact_tip ≡ 0) × (state ≢ 3) × (state ≢ 4)))
unfolding flags_for_state
flags_for_state-known state = elim (Bool-cases (leb 1 state && leb state 6)) [
  | inl ranged ↦ elim (Bool-cases (state == 3 || state == 4)) [
    | inl tip ↦
        rw (ranged, tip)
          (
            omega arith,
            (λ e. absurd (omega arith)),
            inl ((λ e. absurd (omega arith)), three_or_four state tip, λ e. absurd (omega arith)),
          )
    | inr lifted ↦
        rw (ranged, lifted)
          (
            omega arith,
            (λ e. absurd (omega arith)),
            inr (refl, ground (arith, lifted), ground (arith, lifted)),
          )
  ]
  | inr away ↦ elim (Bool-cases (state == 3 || state == 4)) [
    | inl tip ↦ absurd (ground (arith, away, tip))
    | inr lifted ↦
        rw (away, lifted)
          (
            omega arith,
            (λ e. absurd (omega arith)),
            inr (refl, ground (arith, lifted), ground (arith, lifted)),
          )
  ]
]

-- The message was put behind the others; or the queue was full, and the session was given up.
abbrev pub Enqueued : WireMessage → Agent → Agent → Type 0
Enqueued m a a' =
    ((contents a'.queue ≡ contents a.queue ++ (m ∷ []))
      × (a'.connected ≡ a.connected)
      × (a'.dropped ≡ a.dropped))
    ⊎ ((contents a'.queue ≡ [])
        × (a'.connected ≡ false)
        × (a'.reconnect_requested ≡ true)
        × (a'.dropped ≡ (a.dropped + 1) % 2 ^ 64)
        × (a.queue.count ≡ queue_capacity))

enqueue_message-Enqueued :
    (m : WireMessage) (a : Agent)
    → IsQueue a.queue
    → m.length ≢ 0
    → IsQueue (enqueue_message m a).queue
      × Enqueued m a (enqueue_message m a)
      × ((enqueue_message m a).sequence ≡ a.sequence)
unfolding enqueue_message request_reconnect queue_clear
enqueue_message-Enqueued m a i some_bytes =
    let (p, r) = queue_push-Pushed m a.queue i in
    elim (Bool-cases (m.length != 0 && (queue_push m a.queue).0)) [
      | inl pushed ↦ rw pushed (
        p,
        elim r [
          | inl (room, accepted, c) ↦ inl (c, refl, refl)
          | inr (full, refused, same) ↦ absurd (ground (arith, pushed, refused))
        ],
        refl,
      )
      | inr refused ↦ rw refused (
        record { size = i.size; head = omega arith; count = omega arith },
        elim r [
          | inl (room, accepted, c) ↦ absurd (ground (arith, refused, accepted, some_bytes))
          | inr (full, turned_away, same) ↦ inr (refl, refl, refl, refl, full)
        ],
        refl,
      )
    ]

-- What the sender sends of a message.
abbrev pub sent_of : WireMessage → List ℕ
sent_of m = take m.length m.bytes

pub sent_size-le :
    (f : Frame) → IsSendable message_frame f → sent_size message_frame f ≤ max_message_size
sent_size-le f v = omega (arith, v.count)

pub take-write :
    (bytes rest : List ℕ) (n : ℕ) → n ≡ length bytes → take n (write bytes rest) ≡ bytes
take-write bytes rest n e = take-append bytes (drop (length bytes) rest) n e

module _ (bytes : List ℕ) (now : ℕ) (f : Frame) (a : Agent) where
  -- The frame as it is sent.
  abbrev pub numbered : Frame
  numbered = record f { sequence = (a.sequence + 1) % 2 ^ 32; capture_time_us = now }

  -- A frame that the encoder accepts gets the next sequence number, modulo 2^32, and its message goes
  -- behind those in the queue, with exactly the bytes of the encoded frame to be sent; or the queue was
  -- full, and then the session is given up: the queue is empty, the agent is not connected, and it asks
  -- for a new connection.
  pub enqueue_frame_locked-Enqueued :
      IsQueue a.queue
      → IsSendable message_frame numbered
      → (m : WireMessage) × (sent_of m ≡ sent_bytes message_frame numbered)
        × IsQueue (enqueue_frame_locked bytes now f a).queue
        × Enqueued m a (enqueue_frame_locked bytes now f a)
        × ((enqueue_frame_locked bytes now f a).sequence ≡ (a.sequence + 1) % 2 ^ 32)
  unfolding enqueue_frame_locked
  enqueue_frame_locked-Enqueued i v =
      let e = encode_message-sent bytes max_message_size v (sent_size-le numbered v) in
      let m : WireMessage = record {
        length = sent_size message_frame numbered;
        bytes = write (sent_bytes message_frame numbered) bytes;
      } in
      let (q, r, s) =
        enqueue_message-Enqueued m (record a { sequence = (a.sequence + 1) % 2 ^ 32 }) i
          (λ z. absurd (omega (arith, z))) in
      (
        m,
        take-write (sent_bytes message_frame numbered) bytes (sent_size message_frame numbered)
            (sym (length-sent_bytes v)),
        rw e q,
        rw e r,
        rw e s,
      )
