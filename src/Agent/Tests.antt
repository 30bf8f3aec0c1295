-- ===== src/Agent/Tests.antt =====
-- mac/Agent/main.c: the theorems about the agent on concrete touches.
use touchpad.Base.{◌≡◌, refl, true, false, arith, some, List, [], ◌∷◌, replicate}
use touchpad.Wire.Types.{zero_frame}
use touchpad.Agent.Types.{WireMessage, MessageQueue, Agent, zero_message, queue_capacity}
use touchpad.Agent.Queue.{queue_push, queue_pop}
use touchpad.Agent.Capture.{MtTouch, contact_callback}
use touchpad.Agent.Send.{Sent, took, interrupted, SendsPrefix, send_all, send_all-SendsPrefix}
use touchpad.Agent.Fifo.{IsQueue, Pushed, Popped, queue_push-Pushed, queue_pop-Popped}
use touchpad.Agent.Press.{Frames, press_frames, pressed, press_frames-pressed}
use touchpad.Agent.Touches.{IsTouch, Captured, contact_callback-Captured}

-- One message at the end of the array.
abbrev queue : MessageQueue
queue = record { items = replicate queue_capacity zero_message; head = 255; count = 1 }

queue-IsQueue : IsQueue queue
queue-IsQueue = record { size = refl; head = omega arith; count = omega arith }

abbrev hi : WireMessage
hi = record { length = 2; bytes = 72 ∷ 105 ∷ [] }

queue_push-Pushed_example : Pushed hi queue (queue_push hi queue)
queue_push-Pushed_example = queue_push-Pushed hi queue queue-IsQueue

queue_pop-Popped_example : Popped queue (queue_pop queue)
queue_pop-Popped_example = queue_pop-Popped queue queue-IsQueue

abbrev answers : List Sent
answers = took 0 ∷ interrupted ∷ took 5 ∷ []

send_all-SendsPrefix_example : SendsPrefix (send_all answers (1 ∷ 2 ∷ 3 ∷ [])) (1 ∷ 2 ∷ 3 ∷ [])
send_all-SendsPrefix_example = send_all-SendsPrefix answers (1 ∷ 2 ∷ 3 ∷ [])

abbrev halfway : Agent
halfway = record {
  queue = queue;
  connected = true;
  reconnect_requested = false;
  sequence = 2;
  captured = 0;
  dropped = 0;
  reconnects = 1;
  physical_button_down = false;
  button_events = 0;
  pressure_button_down = false;
  pressure_press_frames = 2;
  pressure_button_events = 0;
  pressure_threshold = 0x3f80_0000;
  latest_frame = zero_frame;
}

-- Three presses, the last of them followed by a soft touch of one finger.
abbrev three_presses : Frames
three_presses = (1, 0) ∷ (1, 0x4000_0000) ∷ (1, 0x4000_0000) ∷ (1, 0x4000_0000) ∷ []

abbrev unpressed : Agent
unpressed = record halfway { pressure_press_frames = 0 }

press_frames-pressed_example :
    (press_frames three_presses unpressed).pressure_button_down
    ≡ pressed unpressed.pressure_threshold three_presses
press_frames-pressed_example = press_frames-pressed three_presses unpressed refl refl

abbrev touch : MtTouch
touch = record {
  identifier = 7;
  state = 4;
  position_x = 0x3f00_0000;
  position_y = 0x3f00_0000;
  velocity_x = 0;
  velocity_y = 0;
  size = 0;
  pressure = 0x4000_0000;
  angle = 0;
  major_axis = 0;
  minor_axis = 0;
  density = 0;
}

touch-IsTouch : IsTouch touch
touch-IsTouch = record {
  identifier = omega arith;
  position_x = omega arith;
  position_y = omega arith;
  velocity_x = omega arith;
  velocity_y = omega arith;
  size = omega arith;
  angle = omega arith;
  major_axis = omega arith;
  minor_axis = omega arith;
  density = omega arith;
}

contact_callback-Captured_example :
    Captured
      (touch ∷ [])
      halfway
      (contact_callback (replicate 476 0) 9 (some (touch ∷ [])) 1 5 halfway)
contact_callback-Captured_example =
    contact_callback-Captured (replicate 476 0) 9 (touch ∷ []) 1 5 halfway refl (omega arith)
      (touch-IsTouch, tt) (omega arith) (omega arith) queue-IsQueue
