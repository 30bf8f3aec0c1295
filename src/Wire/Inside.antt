-- ===== src/Wire/Inside.antt =====
-- protocol/TouchFrame.c: `tp_decode_message` reads nothing behind the length that it is given.
use touchpad.Base.{
  ℕ, zero, suc, ◌+◌, ◌-◌, ◌*◌, ◌%◌, ◌^◌, ◌≤◌, ◌≡◌, ◌∙◌, inl, inr, refl, ap, ap₂, bit_or, Bool, some,
  List, ◌∷◌, ◌++◌, ltb, drop, replicate, length, length-drop, drop-append_le, get_or-append, arith,
  Bool-cases,
}
use touchpad.Wire.Types.{zero_contact, max_contacts, header_size, contact_size}
use touchpad.Wire.Bytes.{get_u16, get_u32, get_u64, get_f32}
use touchpad.Wire.Decode.{get_contact, get_contacts, read_frame, decode_message}

-- Loads inside `s`, at the start of it and at an offset.
module _ (s t : List ℕ) where
  u16_inside : 2 ≤ length s → get_u16 (s ++ t) ≡ get_u16 s
  unfolding get_u16
  u16_inside h = cc (get_or-append 0 s t 0 (omega arith), get_or-append 1 s t 0 (omega arith))

  u32_inside : 4 ≤ length s → get_u32 (s ++ t) ≡ get_u32 s
  unfolding get_u32
  u32_inside h = cc (
    get_or-append 0 s t 0 (omega arith),
    get_or-append 1 s t 0 (omega arith),
    get_or-append 2 s t 0 (omega arith),
    get_or-append 3 s t 0 (omega arith),
  )

module _ (s t : List ℕ) (i : ℕ) where
  pub u16_inside_at : i + 2 ≤ length s → get_u16 (drop i (s ++ t)) ≡ get_u16 (drop i s)
  u16_inside_at h =
      ap get_u16 (drop-append_le i s t (omega arith))
      ∙ u16_inside (drop i s) t (omega (arith, length-drop i s))

  pub u32_inside_at : i + 4 ≤ length s → get_u32 (drop i (s ++ t)) ≡ get_u32 (drop i s)
  u32_inside_at h =
      ap get_u32 (drop-append_le i s t (omega arith))
      ∙ u32_inside (drop i s) t (omega (arith, length-drop i s))

  pub f32_inside_at : i + 4 ≤ length s → get_f32 (drop i (s ++ t)) ≡ get_f32 (drop i s)
  unfolding get_f32
  f32_inside_at h = u32_inside_at h

module _ (s t : List ℕ) where
  u64_inside : 8 ≤ length s → get_u64 (s ++ t) ≡ get_u64 s
  unfolding get_u64
  u64_inside h =
      ap₂ (λ hi lo. bit_or (hi * 2 ^ 32 % 2 ^ 64) lo) (u32_inside s t (omega arith))
        (u32_inside_at s t 4 (omega arith))

  contact_inside : contact_size ≤ length s → get_contact (s ++ t) ≡ get_contact s
  unfolding get_contact
  contact_inside h = λ i. record {
    identifier = u32_inside s t (omega arith) i;
    state = get_or-append 4 s t 0 (omega arith) i;
    flags = get_or-append 5 s t 0 (omega arith) i;
    x = f32_inside_at s t 8 (omega arith) i;
    y = f32_inside_at s t 12 (omega arith) i;
    velocity_x = f32_inside_at s t 16 (omega arith) i;
    velocity_y = f32_inside_at s t 20 (omega arith) i;
    size = f32_inside_at s t 24 (omega arith) i;
    angle = f32_inside_at s t 28 (omega arith) i;
    major_axis = f32_inside_at s t 32 (omega arith) i;
    minor_axis = f32_inside_at s t 36 (omega arith) i;
    density = f32_inside_at s t 40 (omega arith) i;
  }

pub u64_inside_at :
    (s t : List ℕ) (i : ℕ) → i + 8 ≤ length s → get_u64 (drop i (s ++ t)) ≡ get_u64 (drop i s)
u64_inside_at s t i h =
    ap get_u64 (drop-append_le i s t (omega arith))
    ∙ u64_inside (drop i s) t (omega (arith, length-drop i s))

pub contact_inside_at :
    (s t : List ℕ) (i : ℕ)
    → i + contact_size ≤ length s
    → get_contact (drop i (s ++ t)) ≡ get_contact (drop i s)
contact_inside_at s t i h =
    ap get_contact (drop-append_le i s t (omega arith))
    ∙ contact_inside (drop i s) t (omega (arith, length-drop i s))

get_contacts_inside :
    (n index : ℕ) (s t : List ℕ)
    → header_size + (index + n) * contact_size ≤ length s
    → get_contacts n index (s ++ t) ≡ get_contacts n index s
unfolding get_contacts
get_contacts_inside zero index s t h = refl
get_contacts_inside (suc n) index s t h =
    ap₂ ◌∷◌ (contact_inside_at s t (header_size + index * contact_size) (omega arith))
      (get_contacts_inside n (index + 1) s t (omega arith))

read_frame_inside :
    (s t : List ℕ)
    → header_size + get_u16 (drop 16 s) * contact_size ≤ length s
    → read_frame (s ++ t) ≡ read_frame s
unfolding read_frame
read_frame_inside s t h = λ i. (
  u16_inside_at s t 6 (omega arith) i,
  record {
    sequence = u32_inside_at s t 12 (omega arith) i;
    flags = u16_inside_at s t 18 (omega arith) i;
    contact_count = count i;
    capture_time_us = u64_inside_at s t 20 (omega arith) i;
    device_time_us = u64_inside_at s t 28 (omega arith) i;
    contacts = contacts i;
  },
)
  where
    count : get_u16 (drop 16 (s ++ t)) ≡ get_u16 (drop 16 s)
    count = u16_inside_at s t 16 (omega arith)

    contacts :
        get_contacts (get_u16 (drop 16 (s ++ t))) 0 (s ++ t)
          ++ replicate (max_contacts - get_u16 (drop 16 (s ++ t))) zero_contact
        ≡ get_contacts (get_u16 (drop 16 s)) 0 s
          ++ replicate (max_contacts - get_u16 (drop 16 s)) zero_contact
    contacts = rw (count, get_contacts_inside (get_u16 (drop 16 s)) 0 s t (omega arith))

-- The answer depends on the first `length` bytes alone: bytes behind them change nothing.
pub decode_message-append :
    (s t : List ℕ) (has_type has_frame : Bool)
    → decode_message (some (s ++ t)) (length s) has_type has_frame
      ≡ decode_message (some s) (length s) has_type has_frame
unfolding decode_message
decode_message-append s t has_type has_frame = elim (Bool-cases (ltb (length s) header_size)) [
  | inl short ↦ rw short (ground arith)
  | inr long ↦ ground (
    arith,
    u32_inside_at s t 0 (ground arith),
    u16_inside_at s t 4 (ground arith),
    u16_inside_at s t 6 (ground arith),
    u32_inside_at s t 8 (ground arith),
    u16_inside_at s t 16 (ground arith),
    u16_inside_at s t 18 (ground arith),
    read_frame_inside s t,
  )
]
