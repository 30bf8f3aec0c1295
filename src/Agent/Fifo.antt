-- ===== src/Agent/Fifo.antt =====
-- mac/Agent/main.c: the queue is a bounded first-in first-out queue.
use touchpad.Base.{
  ℕ, zero, suc, ◌+◌, ◌-◌, ◌%◌, ◌≤◌, ◌<◌, ◌≡◌, ◌≢◌, ◌∙◌, ap, ap₂, sym, refl, ◌⊎◌, inl, inr, Bool,
  true, false, ◌==◌, arith, Option, none, some, List, [], ◌∷◌, ◌++◌, length, length-set, set,
  get_or, get_or-set_self, get_or-set_ne, Bool-cases,
}
use touchpad.Agent.Types.{WireMessage, MessageQueue, zero_message, queue_capacity}
use touchpad.Agent.Queue.{queue_push, queue_pop}

-- `n` messages from the index `i` on, around the end of the array.
abbrev pub read_items : ℕ → ℕ → List WireMessage → List WireMessage
read_items zero i items = []
read_items (suc n) i items =
    get_or items i zero_message ∷ read_items n ((i + 1) % queue_capacity) items

-- The messages in the queue, the oldest first.
abbrev pub contents : MessageQueue → List WireMessage
contents queue = read_items queue.count queue.head queue.items

-- The array is there, and the indices are in it.
pub record IsQueue (queue : MessageQueue) : Type 0 where
  pub size : length queue.items ≡ queue_capacity
  pub head : queue.head < queue_capacity
  pub count : queue.count ≤ queue_capacity

next_index :
    (i k : ℕ)
    → i < queue_capacity
    → ((i + 1) % queue_capacity + k) % queue_capacity ≡ (i + suc k) % queue_capacity
next_index i k h = omega arith

-- A write behind the messages changes none of them.
read_items-set :
    (n k i : ℕ) (items : List WireMessage) (m : WireMessage)
    → n ≤ k
    → k < queue_capacity
    → i < queue_capacity
    → read_items n i (set items ((i + k) % queue_capacity) m) ≡ read_items n i items
read_items-set zero k i items m h lt hi = refl
read_items-set (suc n) zero i items m h lt hi = absurd (omega arith)
read_items-set (suc n) (suc k) i items m h lt hi =
    let same = next_index i k hi in
    let other : (i + suc k) % queue_capacity ≢ i = λ e. absurd (omega (arith, e, lt, hi)) in
    ap₂ (λ x l. x ∷ l) (get_or-set_ne items ((i + suc k) % queue_capacity) i m zero_message other)
      (ap (λ j. read_items n ((i + 1) % queue_capacity) (set items j m)) (sym same)
        ∙ read_items-set n k ((i + 1) % queue_capacity) items m (omega arith) (omega arith)
            (omega arith))

-- The message behind them is the last one.
read_items-last :
    (n i : ℕ) (items : List WireMessage)
    → i < queue_capacity
    → read_items (suc n) i items
      ≡ read_items n i items ++ (get_or items ((i + n) % queue_capacity) zero_message ∷ [])
read_items-last zero i items h = ap (λ j. get_or items j zero_message ∷ []) (omega arith)
read_items-last (suc n) i items h =
    ap (λ l. get_or items i zero_message ∷ l)
      (read_items-last n ((i + 1) % queue_capacity) items (omega arith)
        ∙ ap
            (λ j.
              read_items n ((i + 1) % queue_capacity) items ++ (get_or items j zero_message ∷ []))
            (next_index i n h))

-- The outcome of a push.
abbrev pub Pushed : WireMessage → MessageQueue → Bool × MessageQueue → Type 0
Pushed m queue r =
    IsQueue r.1
    × (((queue.count < queue_capacity) × (r.0 ≡ true) × (contents r.1 ≡ contents queue ++ (m ∷ [])))
        ⊎ ((queue.count ≡ queue_capacity) × (r.0 ≡ false) × (r.1 ≡ queue)))

contents-pushed :
    (m : WireMessage) (queue : MessageQueue)
    → IsQueue queue
    → queue.count < queue_capacity
    → read_items
        (queue.count + 1)
        queue.head
        (set queue.items ((queue.head + queue.count) % queue_capacity) m)
      ≡ contents queue ++ (m ∷ [])
contents-pushed m queue i lt =
    let tail = (queue.head + queue.count) % queue_capacity in
    let inside : tail < length queue.items = omega (arith, i.size) in
    let one : queue.count + 1 ≡ suc queue.count = omega arith in
    ap (λ n. read_items n queue.head (set queue.items tail m)) one
    ∙ read_items-last queue.count queue.head (set queue.items tail m) i.head
    ∙ ap₂ (λ l x. l ++ (x ∷ []))
        (read_items-set queue.count queue.count queue.head queue.items m (omega arith) lt i.head)
        (get_or-set_self queue.items tail m zero_message inside)

-- A push onto a queue in order that is not full puts the message behind the others; onto a full one it
-- is refused, and the queue stays as it is. The queue is in order behind it.
pub queue_push-Pushed :
    (m : WireMessage) (queue : MessageQueue) → IsQueue queue → Pushed m queue (queue_push m queue)
unfolding queue_push
queue_push-Pushed m queue i = elim (Bool-cases (queue.count == queue_capacity)) [
  | inl full ↦ rw full (i, inr (ground (arith, full), refl, refl))
  | inr room ↦
      let lt : queue.count < queue_capacity = ground (arith, room, i.count) in
      let tail = (queue.head + queue.count) % queue_capacity in
      rw room (
        record {
          size = length-set queue.items tail m ∙ i.size;
          head = i.head;
          count = omega arith;
        },
        inl (lt, refl, contents-pushed m queue i lt),
      )
]

-- The outcome of a pop.
abbrev pub Popped : MessageQueue → Option WireMessage × MessageQueue → Type 0
Popped queue r =
    IsQueue r.1
    × (((contents queue ≡ []) × (r.0 ≡ none) × (r.1 ≡ queue))
        ⊎ ((m : WireMessage) × (r.0 ≡ some m) × (contents queue ≡ m ∷ contents r.1)))

-- A pop from a queue in order takes the oldest message, and leaves the others in their order; from an
-- empty one it takes none, and the queue stays as it is. The queue is in order behind it.
pub queue_pop-Popped : (queue : MessageQueue) → IsQueue queue → Popped queue (queue_pop queue)
unfolding queue_pop
queue_pop-Popped queue i = elim (Bool-cases (queue.count == 0)) [
  | inl none_left ↦
      let zero_left : queue.count ≡ 0 = ground (arith, none_left) in
      rw none_left (i, inl (ap (λ n. read_items n queue.head queue.items) zero_left, refl, refl))
  | inr some_left ↦
      let one : queue.count ≡ suc (queue.count - 1) = ground (arith, some_left) in
      rw some_left (
        record { size = i.size; head = omega arith; count = omega (arith, i.count) },
        inr (
          get_or queue.items queue.head zero_message,
          refl,
          ap (λ n. read_items n queue.head queue.items) one,
        ),
      )
]
