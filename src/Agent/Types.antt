-- ===== src/Agent/Types.antt =====
-- mac/Agent/main.c: the queue and the state of the agent, without the settings and the trace file. A
-- float is its bit pattern. The mutexes have no state here: each function holds its own as a whole.
use touchpad.Base.{ℕ, Bool, List, replicate}
use touchpad.Wire.Types.{Frame, max_message_size}

abbrev pub queue_capacity : ℕ
queue_capacity = 256

-- `bytes` is the whole array of `TP_MAX_MESSAGE_SIZE` bytes.
pub record WireMessage : Type 0 where
  pub length : ℕ
  pub bytes : List ℕ

abbrev pub zero_message : WireMessage
zero_message = record { length = 0; bytes = replicate max_message_size 0 }

-- `items` is the whole array of `QUEUE_CAPACITY` messages.
pub record MessageQueue : Type 0 where
  pub items : List WireMessage
  pub head : ℕ
  pub count : ℕ

pub record Agent : Type 0 where
  pub queue : MessageQueue
  pub connected : Bool
  pub reconnect_requested : Bool
  pub sequence : ℕ
  pub captured : ℕ
  pub dropped : ℕ
  pub reconnects : ℕ
  pub physical_button_down : Bool
  pub button_events : ℕ
  pub pressure_button_down : Bool
  pub pressure_press_frames : ℕ
  pub pressure_button_events : ℕ
  pub pressure_threshold : ℕ
  pub latest_frame : Frame
