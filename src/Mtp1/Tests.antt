-- ===== src/Mtp1/Tests.antt =====
-- windows/receiver/Mtp1.cpp: the theorems about the receiver's decoder on concrete bytes.
use touchpad.Base.{
  ℕ, ◌⊎◌, ◌≤◌, ◌≡◌, refl, true, arith, List, [], ◌∷◌, ◌++◌, some, length, drop, take,
}
use touchpad.Wire.Types.{zero_frame}
use touchpad.Wire.Encode.{put_contact, put_contacts, put_header, message_bytes}
use touchpad.Wire.Bytes.{put_u16, put_u32, put_u64, put_f32}
use touchpad.Wire.Decode.{read_frame}
use touchpad.Mtp1.Types.{Error, hello, frame, ok, err}
use touchpad.Mtp1.Message.{decode_message}
use touchpad.Mtp1.Valid.{ValidMessage}
use touchpad.Mtp1.Decoded.{SameContent, decode_message-ValidMessage}
use touchpad.Mtp1.FromMac.{message_of, decode_message-sent_bytes}
use touchpad.Mtp1.Stream.{StreamDecoder, wait, round, parse_available, new_decoder, append}
use touchpad.Mtp1.Fragments.{parse_available_stops, then_append, append-append}
use touchpad.Mtp1.Feed.{Sent, feed, sent_stream, messages_of, feed-sent_stream}
use touchpad.Wire.Decode as Codec
use touchpad.Samples.{
  one_finger, one_finger-IsReceivable, finger_bytes, finger_bytes-IsByte, greeting-IsReceivable,
}

decode_message-sent_bytes_example : decode_message finger_bytes ≡ ok (message_of frame one_finger)
decode_message-sent_bytes_example = decode_message-sent_bytes one_finger-IsReceivable

finger_message : decode_message finger_bytes ≡ ok (message_of frame one_finger)
finger_message = decode_message-sent_bytes one_finger-IsReceivable

decode_message-ValidMessage_example :
    ValidMessage (message_of frame one_finger)
    × (Codec.decode_message (some finger_bytes) (length finger_bytes) true true
        ≡ some (read_frame finger_bytes))
    × SameContent (message_of frame one_finger) (read_frame finger_bytes)
decode_message-ValidMessage_example =
    decode_message-ValidMessage finger_bytes (message_of frame one_finger) finger_bytes-IsByte
      finger_message

abbrev two_sent : List Sent
two_sent = (hello, zero_frame) ∷ (frame, one_finger) ∷ []

abbrev cut : List (List ℕ)
cut = take 50 (sent_stream two_sent) ∷ drop 50 (sent_stream two_sent) ∷ []

feed-sent_stream_example :
    feed cut new_decoder ≡ (ok tt, record { buffer = []; messages = messages_of two_sent })
unfolding put_contact put_contacts put_header message_bytes put_u16 put_u32 put_u64 put_f32
feed-sent_stream_example =
    feed-sent_stream two_sent cut (greeting-IsReceivable, (one_finger-IsReceivable, tt))
      (omega arith, (omega arith, tt)) refl

append-append_example :
    append ((0x4d ∷ []) ++ (0x54 ∷ [])) new_decoder
    ≡ then_append (0x54 ∷ []) (append (0x4d ∷ []) new_decoder)
append-append_example = append-append (0x4d ∷ []) (0x54 ∷ []) new_decoder (omega arith)

abbrev one_and_a_half : StreamDecoder
one_and_a_half = record { buffer = sent_stream two_sent ++ take 40 finger_bytes; messages = [] }

parse_available_stops_example :
    (length (parse_available one_and_a_half).1.buffer ≤ length one_and_a_half.buffer)
    × ((((parse_available one_and_a_half).0 ≡ ok tt)
          × (round (parse_available one_and_a_half).1.buffer ≡ wait))
        ⊎ ((e : Error) × ((parse_available one_and_a_half).0 ≡ err e)))
parse_available_stops_example = parse_available_stops one_and_a_half
