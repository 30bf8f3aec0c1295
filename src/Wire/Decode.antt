-- ===== src/Wire/Decode.antt =====
-- protocol/TouchFrame.c: `tp_decode_message`.
use touchpad.Base.{
  ℕ, zero, suc, ◌+◌, ◌-◌, ◌*◌, ◌%◌, ◌^◌, bit_and, Bool, not, Option, none, some, List, [], ◌∷◌,
  ◌++◌, ltb, ◌!=◌, if◌then◌else◌, ◌&&◌, ◌||◌, drop, get_or, replicate,
}
use touchpad.Wire.Types.{
  Contact, Frame, zero_contact, zero_frame, wire_magic, wire_version, max_contacts, header_size,
  contact_size, message_hello, message_frame, message_reset,
}
use touchpad.Wire.Bytes.{get_u16, get_u32, get_u64, get_f32}

-- The body of the loop; `input` is a pointer, so it is the bytes from it on.
unfoldable pub get_contact : List ℕ → Contact
get_contact input = record {
  identifier = get_u32 input;
  state = get_or input 4 0;
  flags = get_or input 5 0;
  x = get_f32 (drop 8 input);
  y = get_f32 (drop 12 input);
  velocity_x = get_f32 (drop 16 input);
  velocity_y = get_f32 (drop 20 input);
  size = get_f32 (drop 24 input);
  angle = get_f32 (drop 28 input);
  major_axis = get_f32 (drop 32 input);
  minor_axis = get_f32 (drop 36 input);
  density = get_f32 (drop 40 input);
}

-- `count` rounds; each reads the contact at `source + TP_HEADER_SIZE + index * TP_CONTACT_SIZE`.
unfoldable pub get_contacts : ℕ → ℕ → List ℕ → List Contact
get_contacts zero index source = []
get_contacts (suc n) index source =
    get_contact (drop (header_size + index * contact_size) source)
    ∷ get_contacts n (index + 1) source

-- What the accepted message stores through `type` and `frame`: the array is zeroed, then its first
-- `count` entries are written.
unfoldable pub read_frame : List ℕ → ℕ × Frame
unfolding get_contacts
read_frame source =
    let count = get_u16 (drop 16 source) in
    (
      get_u16 (drop 6 source),
      record zero_frame {
        sequence = get_u32 (drop 12 source);
        flags = get_u16 (drop 18 source);
        contact_count = count;
        capture_time_us = get_u64 (drop 20 source);
        device_time_us = get_u64 (drop 28 source);
        contacts = get_contacts count 0 source ++ replicate (max_contacts - count) zero_contact;
      },
    )

-- `none` is `false`, with nothing stored. The Booleans say that `type` and `frame` are not null.
unfoldable pub decode_message : Option (List ℕ) → ℕ → Bool → Bool → Option (ℕ × Frame)
decode_message none length has_type has_frame = none
decode_message (some source) length has_type has_frame =
    let raw_type = get_u16 (drop 6 source) in
    let payload_size = get_u32 (drop 8 source) in
    let count = get_u16 (drop 16 source) in
    let flags = get_u16 (drop 18 source) in
    if not has_type
      || (not has_frame
          || (ltb length header_size
              || (get_u32 source != wire_magic || get_u16 (drop 4 source) != wire_version)))
    then none
    else if ltb raw_type message_hello || ltb message_reset raw_type
    then none
    else if ltb max_contacts count
        || (payload_size != count * contact_size % 2 ^ 32
            || (length != header_size + payload_size
                || (bit_and flags 0xfffe != 0
                    || (raw_type != message_frame && (count != 0 || flags != 0)))))
    then none
    else some (read_frame source)
