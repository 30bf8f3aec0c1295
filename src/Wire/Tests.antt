-- ===== src/Wire/Tests.antt =====
-- protocol/TouchFrame.c: the theorems about the codec on concrete frames.
use touchpad.Base.{
  ℕ, ◌≤◌, ◌≡◌, ◌≢◌, ◌↔◌, refl, true, arith, List, [], ◌∷◌, ◌++◌, some, replicate, length, drop,
}
use touchpad.Wire.Bytes.{put_u16, put_u32, put_u64, put_f32, get_u16, get_u32, get_u64, get_f32}
use touchpad.Wire.Encode.{encode_message, put_contact, put_contacts, put_header, message_bytes}
use touchpad.Wire.Decode.{decode_message, read_frame, get_contact, get_contacts}
use touchpad.Wire.RoundTrip.{IsSendable, sent_size, received, decode_message-encode_message}
use touchpad.Wire.Safety.{encode_message_bounds}
use touchpad.Wire.Inside.{decode_message-append}
use touchpad.Wire.Ranges.{decode_message-IsSendable}
use touchpad.Samples.{
  one_finger, one_finger-IsFrame, one_finger-IsSendable, finger_bytes, finger_bytes-IsByte,
}

abbrev buffer : List ℕ
buffer = replicate 100 0

decode_message-encode_message_example :
    let (n, d) = encode_message 2 (some one_finger) (some buffer) 100 in
    decode_message d n true true ≡ some (2, received 2 one_finger)
decode_message-encode_message_example =
    decode_message-encode_message buffer 100 one_finger-IsSendable (omega arith)

encode_message_bounds_example :
    let n = (encode_message 2 (some one_finger) (some buffer) 100).0 in
    (d : List ℕ) × (encode_message 2 (some one_finger) (some buffer) 100 ≡ (n, some d))
    × (n ≤ 100)
    × (length d ≡ 100)
    × (drop n d ≡ drop n buffer)
    × (n ≢ 0 ↔ (IsSendable 2 one_finger × (sent_size 2 one_finger ≤ 100)))
encode_message_bounds_example =
    encode_message_bounds 2 one_finger buffer 100 one_finger-IsFrame (omega arith)

decode_message-append_example :
    decode_message (some (finger_bytes ++ (1 ∷ 2 ∷ []))) (length finger_bytes) true true
    ≡ decode_message (some finger_bytes) (length finger_bytes) true true
decode_message-append_example = decode_message-append finger_bytes (1 ∷ 2 ∷ []) true true

decodes : decode_message (some finger_bytes) 80 true true ≡ some (2, one_finger)
unfolding decode_message read_frame get_contact get_contacts get_u16 get_u32 get_u64 get_f32
    put_contact put_contacts put_header message_bytes put_u16 put_u32 put_u64 put_f32
decodes = refl

decode_message-IsSendable_example :
    IsSendable 2 one_finger × (80 ≡ sent_size 2 one_finger) × (80 ≤ 476)
decode_message-IsSendable_example =
    decode_message-IsSendable finger_bytes 80 finger_bytes-IsByte decodes
