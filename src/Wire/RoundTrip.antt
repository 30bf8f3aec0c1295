-- ===== src/Wire/RoundTrip.antt =====
-- protocol/TouchFrame.c: what `tp_decode_message` makes of what `tp_encode_message` wrote.
use mathlib.Core.List.{append_assoc}
use touchpad.Base.{
  ℕ, ◌+◌, ◌-◌, ◌*◌, ◌%◌, ◌^◌, ◌≤◌, ◌<◌, ◌≡◌, true, some, List, ◌++◌, drop, take, replicate, length,
  length-append, arith, and_not_one,
}
use touchpad.Wire.Types.{Frame, IsFrame, zero_contact, max_contacts, header_size, contact_size}
use touchpad.Wire.Bytes.{get_u16}
use touchpad.Wire.Encode.{
  put_contacts, put_header, write, sent_count, sent_flags, message_bytes, encode_message,
}
use touchpad.Wire.Decode.{get_contacts, read_frame, decode_message}
use touchpad.Wire.Layout.{
  Reads, put_header-Reads, length-put_header, length-put_contacts, get_contacts-put_contacts,
}

-- What the encoder accepts: a frame of the C types, one of the three message types, a count within
-- the array, and for a FRAME no flag but the button.
pub record IsSendable (type : ℕ) (f : Frame) : Type 0 where
  pub frame : IsFrame f
  pub at_least : 1 ≤ type
  pub at_most : type ≤ 3
  pub count : f.contact_count ≤ max_contacts
  pub flags : sent_flags type f < 2

abbrev pub sent_size : ℕ → Frame → ℕ
sent_size type f = header_size + sent_count type f * contact_size

abbrev pub sent_header : ℕ → Frame → List ℕ
sent_header type f =
    put_header type (sent_count type f * contact_size) (sent_count type f) (sent_flags type f) f

-- The bytes of a message that is sent.
abbrev pub sent_bytes : ℕ → Frame → List ℕ
sent_bytes type f =
    message_bytes type (sent_count type f * contact_size) (sent_count type f) (sent_flags type f) f

pub sent_count-le :
    (type : ℕ) (f : Frame) → f.contact_count ≤ max_contacts → sent_count type f ≤ max_contacts
sent_count-le type f h = ground arith

-- What the receiving side of the C codec stores: control messages lose count and flags, and the
-- entries behind the count are zero.
abbrev pub received : ℕ → Frame → Frame
received type f = record f {
  flags = sent_flags type f;
  contact_count = sent_count type f;
  contacts =
      take (sent_count type f) f.contacts
      ++ replicate (max_contacts - sent_count type f) zero_contact;
}

pub length-sent_bytes :
    {type : ℕ} {f : Frame} → IsSendable type f → length (sent_bytes type f) ≡ sent_size type f
unfolding message_bytes
length-sent_bytes {type} {f} v = omega (
  arith,
  length-append
      (put_header type (sent_count type f * contact_size) (sent_count type f) (sent_flags type f) f)
      (put_contacts (sent_count type f) f.contacts),
  length-put_header type (sent_count type f * contact_size) (sent_count type f) (sent_flags type f)
      f,
  length-put_contacts (sent_count type f) f.contacts
      (ground (arith, v.frame.storage, sent_count-le type f v.count)),
)

-- With room enough, the call returns the size of the message and stores it.
pub encode_message-sent :
    {type : ℕ} {f : Frame} (d : List ℕ) (capacity : ℕ)
    → IsSendable type f
    → sent_size type f ≤ capacity
    → encode_message type (some f) (some d) capacity
      ≡ (sent_size type f, some (write (sent_bytes type f) d))
unfolding encode_message
encode_message-sent {type} {f} d capacity v h =
    ground (arith, small, and_not_one (sent_flags type f))
  where
    small : sent_count type f * contact_size % 2 ^ 32 ≡ sent_count type f * contact_size
    small = omega (arith, sent_count-le type f v.count)

module _ {type : ℕ} {f : Frame} (v : IsSendable type f) (d : List ℕ) where
  sent_bytes-split :
      write (sent_bytes type f) d
      ≡ put_header type (sent_count type f * contact_size) (sent_count type f) (sent_flags type f) f
        ++ (put_contacts (sent_count type f) f.contacts ++ drop (length (sent_bytes type f)) d)
  unfolding message_bytes
  sent_bytes-split =
      append_assoc
        (put_header type (sent_count type f * contact_size) (sent_count type f) (sent_flags type f)
          f)
        (put_contacts (sent_count type f) f.contacts) (drop (length (sent_bytes type f)) d)

  sent_bytes-Reads :
      Reads
        (write (sent_bytes type f) d)
        type
        (sent_count type f * contact_size)
        (sent_count type f)
        (sent_flags type f)
        f
  sent_bytes-Reads = rw sent_bytes-split (
      put_header-Reads type (sent_count type f * contact_size) (sent_count type f)
        (sent_flags type f) f
        (put_contacts (sent_count type f) f.contacts ++ drop (length (sent_bytes type f)) d)
        (omega arith) (omega (arith, sent_count-le type f v.count))
        (omega (arith, sent_count-le type f v.count)) (omega arith) v.frame)

  sent_bytes-contacts :
      get_contacts (sent_count type f) 0 (write (sent_bytes type f) d)
      ≡ take (sent_count type f) f.contacts
  sent_bytes-contacts = rw sent_bytes-split (
      get_contacts-put_contacts (sent_count type f) 0
        (put_header type (sent_count type f * contact_size) (sent_count type f) (sent_flags type f)
          f)
        f.contacts (drop (length (sent_bytes type f)) d) (length-put_header type _ _ _ f)
        (omega (arith, v.frame.storage, sent_count-le type f v.count)) v.frame.contacts)

  read_frame-sent : read_frame (write (sent_bytes type f) d) ≡ (type, received type f)
  unfolding read_frame
  read_frame-sent = λ i. (
    sent_bytes-Reads.type_at i,
    record {
      sequence = sent_bytes-Reads.sequence i;
      capture_time_us = sent_bytes-Reads.capture_time i;
      device_time_us = sent_bytes-Reads.device_time i;
      flags = sent_bytes-Reads.flags_at i;
      contact_count = sent_bytes-Reads.count_at i;
      contacts = contacts i;
    },
  )
    where
      contacts :
          get_contacts
              (get_u16 (drop 16 (write (sent_bytes type f) d)))
              0
              (write (sent_bytes type f) d)
            ++ replicate
                (max_contacts - get_u16 (drop 16 (write (sent_bytes type f) d)))
                zero_contact
          ≡ take (sent_count type f) f.contacts
            ++ replicate (max_contacts - sent_count type f) zero_contact
      contacts = rw sent_bytes-Reads.count_at (rw sent_bytes-contacts)

  decode_message-sent :
      decode_message (some (write (sent_bytes type f) d)) (sent_size type f) true true
      ≡ some (type, received type f)
  unfolding decode_message
  decode_message-sent = ground (
    arith,
    read_frame-sent,
    sent_bytes-Reads,
    sent_count-le type f v.count,
    and_not_one (sent_flags type f),
  )

-- A frame that the encoder accepts, sent into a buffer with room for it, is decoded to its type and
-- to its received form: same sequence and times, the contacts up to the count, zeros behind them,
-- and neither contacts nor flags in a control message.
pub decode_message-encode_message :
    {type : ℕ} {f : Frame} (d : List ℕ) (capacity : ℕ)
    → IsSendable type f
    → sent_size type f ≤ capacity
    → let (n, d') = encode_message type (some f) (some d) capacity in
      decode_message d' n true true ≡ some (type, received type f)
decode_message-encode_message d capacity v h =
    rw (encode_message-sent d capacity v h) (decode_message-sent v d)
