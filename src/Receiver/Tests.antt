-- ===== src/Receiver/Tests.antt =====
-- windows/receiver/main.cpp: a connection on concrete bytes.
use touchpad.Base.{
  ℕ, take, drop, length, refl, false, ◌⊎◌, ◌≡◌, arith, Bool, true, List, [], ◌∷◌, All,
}
use touchpad.Ioctl.{IoctlFrame, IsSubmittable}
use touchpad.Wire.Bytes.{put_u16, put_u32, put_u64, put_f32}
use touchpad.Wire.Encode.{put_contact, put_contacts, put_header, message_bytes}
use touchpad.Mtp1.Types.{hello, reset, frame, ok}
use touchpad.Mtp1.FromMac.{IsReceivable}
use touchpad.Mtp1.Stream.{new_decoder}
use touchpad.Mtp1.Feed.{Sent, feed, sent_stream}
use touchpad.Session.Types.{new_session}
use touchpad.Session.Invariant.{IsForgotten}
use touchpad.Agent.Controls.{control_frame, control_frame-IsSendable}
use touchpad.Receiver.Ordered.{EndsTaken, process_all, process_all-InOrder}
use touchpad.Receiver.Serve.{
  Connection, process_messages, Received, bytes, timed_out, closed, new_connection, receive_loop,
  serve,
}
use touchpad.Receiver.Drained.{process_messages-empties}
use touchpad.Receiver.Submits.{IsEnded, serve-IsSubmittable}
use touchpad.Samples.{
  one_finger, one_finger-IsReceivable, greeting, greeting_bytes, greeting_bytes-IsByte,
  finger_bytes, finger_bytes-IsByte,
}

abbrev working : IoctlFrame → Bool
working f = true

-- A greeting, a pause, a frame without a reset in front of it, and the end.
abbrev client : List Received
client =
    bytes greeting_bytes (λ i. 0)
    ∷ timed_out 50_000_000
    ∷ bytes finger_bytes (λ i. 60_000_000)
    ∷ closed
    ∷ []

serve-IsSubmittable_example :
    All IsSubmittable (serve working client).submitted
    × IsForgotten (serve working client).session
    × IsEnded (receive_loop working client new_connection) (serve working client)
serve-IsSubmittable_example =
    serve-IsSubmittable working client
      (greeting_bytes-IsByte, (tt, (finger_bytes-IsByte, (tt, tt))))

abbrev greeted_twice : Connection
greeted_twice = record new_connection {
  decoder = record { buffer = []; messages = greeting ∷ greeting ∷ [] };
}

process_messages-empties_example :
    ((process_messages working 2 0 (λ i. 0) greeted_twice).0 ≡ false)
    ⊎ ((process_messages working 2 0 (λ i. 0) greeted_twice).1.decoder.messages ≡ [])
process_messages-empties_example =
    process_messages-empties working 2 0 (λ i. 0) greeted_twice (omega arith)

-- A session around the end of the sequence numbers.
abbrev session : List Sent
session =
    (hello, control_frame 0xffff_ffff 5) ∷ (reset, control_frame 0 6) ∷ (frame, one_finger) ∷ []

hello-IsReceivable : IsReceivable hello (control_frame 0xffff_ffff 5)
hello-IsReceivable = record {
  sendable = control_frame-IsSendable hello 0xffff_ffff 5 (omega arith) (omega arith);
  contacts = tt;
  fresh = tt;
}

reset-IsReceivable : IsReceivable reset (control_frame 0 6)
reset-IsReceivable = record {
  sendable = control_frame-IsSendable reset 0 6 (omega arith) (omega arith);
  contacts = tt;
  fresh = tt;
}

abbrev pieces : List (List ℕ)
pieces = take 50 (sent_stream session) ∷ drop 50 (sent_stream session) ∷ []

process_all-InOrder_example :
    let (fed, d) = feed pieces new_decoder in
    (fed ≡ ok tt)
    × (length d.messages ≡ 3)
    × EndsTaken (process_all (λ k. k) d.messages new_session).0
unfolding put_contact put_contacts put_header message_bytes put_u16 put_u32 put_u64 put_f32
process_all-InOrder_example =
    process_all-InOrder (λ k. k) 0xffff_fffe session pieces
      (
        refl,
        refl,
        hello-IsReceivable.sendable,
        (
          refl,
          refl,
          reset-IsReceivable.sendable,
          (refl, refl, one_finger-IsReceivable.sendable, tt),
        ),
      )
      (hello-IsReceivable, (reset-IsReceivable, (one_finger-IsReceivable, tt)))
      (omega arith, (omega arith, tt)) refl
