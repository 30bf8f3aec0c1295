-- ===== src/Agent/Queue.antt =====
-- mac/Agent/main.c: `queue_clear`, `queue_push` and `queue_pop`.
use touchpad.Base.{
  ◌+◌, ◌-◌, ◌%◌, Bool, true, false, ◌==◌, if◌then◌else◌, Option, none, some, set, get_or,
}
use touchpad.Agent.Types.{WireMessage, MessageQueue, zero_message, queue_capacity}

unfoldable pub queue_clear : MessageQueue → MessageQueue
queue_clear queue = record queue { head = 0; count = 0 }

unfoldable pub queue_push : WireMessage → MessageQueue → Bool × MessageQueue
queue_push message queue = if queue.count == queue_capacity then (false, queue) else (
  true,
  record queue {
    items = set queue.items ((queue.head + queue.count) % queue_capacity) message;
    count = queue.count + 1;
  },
)

-- Behind the loop that waits: `none` when the wait was given up on an empty queue.
unfoldable pub queue_pop : MessageQueue → Option WireMessage × MessageQueue
queue_pop queue = if queue.count == 0 then (none, queue) else (
  some (get_or queue.items queue.head zero_message),
  record queue { head = (queue.head + 1) % queue_capacity; count = queue.count - 1 },
)
