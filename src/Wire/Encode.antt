-- ===== src/Wire/Encode.antt =====
-- protocol/TouchFrame.c: `tp_encode_message`.
use touchpad.Base.{
  ℕ, zero, suc, ◌+◌, ◌*◌, ◌%◌, ◌^◌, bit_and, Option, none, some, List, [], ◌∷◌, ◌++◌, ltb, ◌==◌,
  ◌!=◌, if◌then◌else◌, ◌&&◌, length, drop,
}
use touchpad.Wire.Types.{
  Contact, Frame, wire_magic, wire_version, max_contacts, header_size, contact_size, message_hello,
  message_frame, message_reset,
}
use touchpad.Wire.Bytes.{put_u16, put_u32, put_u64, put_f32}

-- What the body of the loop writes from `output` on; the offsets are 0, 4, 5, 6, 8, 12, ..., 40.
unfoldable pub put_contact : Contact → List ℕ
unfolding put_u16 put_u32 put_f32
put_contact c =
    put_u32 c.identifier
    ++ ((c.state ∷ c.flags ∷ [])
        ++ (put_u16 0
            ++ (put_f32 c.x
                ++ (put_f32 c.y
                    ++ (put_f32 c.velocity_x
                        ++ (put_f32 c.velocity_y
                            ++ (put_f32 c.size
                                ++ (put_f32 c.angle
                                    ++ (put_f32 c.major_axis
                                        ++ (put_f32 c.minor_axis ++ put_f32 c.density))))))))))

-- `for (index = 0; index < count; ++index)`: `count` rounds over the array. The guard on the count
-- keeps the rounds inside the array.
unfoldable pub put_contacts : ℕ → List Contact → List ℕ
put_contacts zero contacts = []
put_contacts (suc n) [] = []
put_contacts (suc n) (c ∷ contacts) = put_contact c ++ put_contacts n contacts

-- The stores at offsets 0, 4, 6, 8, 12, 16, 18, 20 and 28 of `destination`.
unfoldable pub put_header : ℕ → ℕ → ℕ → ℕ → Frame → List ℕ
unfolding put_u16 put_u32 put_u64
put_header type payload_size count flags frame =
    put_u32 wire_magic
    ++ (put_u16 wire_version
        ++ (put_u16 (type % 2 ^ 16)
            ++ (put_u32 payload_size
                ++ (put_u32 frame.sequence
                    ++ (put_u16 count
                        ++ (put_u16 flags
                            ++ (put_u64 frame.capture_time_us ++ put_u64 frame.device_time_us)))))))

-- Consecutive stores from the start of a buffer; what lies behind them stays.
abbrev pub write : List ℕ → List ℕ → List ℕ
write bytes buffer = bytes ++ drop (length bytes) buffer

-- `count` and `flags` of the message: control messages carry neither.
abbrev pub sent_count : ℕ → Frame → ℕ
sent_count type frame = if type == message_frame then frame.contact_count else 0

abbrev pub sent_flags : ℕ → Frame → ℕ
sent_flags type frame = if type == message_frame then frame.flags else 0

-- All the stores of one message.
unfoldable pub message_bytes : ℕ → ℕ → ℕ → ℕ → Frame → List ℕ
message_bytes type payload_size count flags frame =
    put_header type payload_size count flags frame ++ put_contacts count frame.contacts

-- The returned size, and the destination as the call leaves it. `none` is a null pointer.
-- `~TP_FRAME_BUTTON` is 0xfffe on the sixteen bits of `flags`.
unfoldable pub encode_message : ℕ → Option Frame → Option (List ℕ) → ℕ → ℕ × Option (List ℕ)
encode_message type frame none capacity = (0, none)
encode_message type none (some destination) capacity = (0, some destination)
encode_message type (some frame) (some destination) capacity =
    let count = sent_count type frame in
    let flags = sent_flags type frame in
    let payload_size = count * contact_size % 2 ^ 32 in
    let message_size = header_size + payload_size in
    if ltb max_contacts frame.contact_count
    then (0, some destination)
    else if type != message_hello && (type != message_frame && type != message_reset)
    then (0, some destination)
    else if bit_and flags 0xfffe != 0
    then (0, some destination)
    else if ltb capacity message_size
    then (0, some destination)
    else (
      message_size,
      some (write (message_bytes type payload_size count flags frame) destination),
    )
