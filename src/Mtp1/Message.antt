-- ===== src/Mtp1/Message.antt =====
-- windows/receiver/Mtp1.cpp: `DecodeMessage`.
use touchpad.Base.{
  ℕ, zero, suc, ◌+◌, ◌*◌, ◌/◌, ◌%◌, ◌^◌, Bool, false, not, List, [], ◌∷◌, ◌==◌, ◌!=◌, ◌||◌, ltb,
  bit_and, get_or, drop, take, length,
}
use touchpad.Wire.Types.{Contact}
use touchpad.Mtp1.Types.{
  Message, Result, ok, ◌>>=◌, ◌>>◌, throw_if, k_header_size, k_contact_size, truncated_header,
  length_mismatch, reserved_nonzero, unknown_contact_flags, not_finite, duplicate_identifier,
}
use touchpad.Mtp1.Header.{read_u16, read_u32, read_u64, read_f32, read_type, validate_header}

-- `std::isfinite`: the exponent is not all ones.
unfoldable pub is_finite : ℕ → Bool
is_finite bits = bits / 2 ^ 23 % 2 ^ 8 != 255

unfoldable pub require_finite : ℕ → Result (Unit {0})
require_finite value = throw_if (not (is_finite value)) not_finite

unfoldable pub require_finite_contact : Contact → Result (Unit {0})
unfolding require_finite
require_finite_contact c = do
  require_finite c.x
  require_finite c.y
  require_finite c.velocity_x
  require_finite c.velocity_y
  require_finite c.size
  require_finite c.angle
  require_finite c.major_axis
  require_finite c.minor_axis
  require_finite c.density

-- The fields that the loop's body reads from the bytes at `p`.
unfoldable pub contact_at : List ℕ → Contact
contact_at p = record {
  identifier = read_u32 p;
  state = get_or p 4 0;
  flags = get_or p 5 0;
  x = read_f32 (drop 8 p);
  y = read_f32 (drop 12 p);
  velocity_x = read_f32 (drop 16 p);
  velocity_y = read_f32 (drop 20 p);
  size = read_f32 (drop 24 p);
  angle = read_f32 (drop 28 p);
  major_axis = read_f32 (drop 32 p);
  minor_axis = read_f32 (drop 36 p);
  density = read_f32 (drop 40 p);
}

-- The `unordered_set` of the identifiers so far.
abbrev pub contains : ℕ → List ℕ → Bool
contains id [] = false
contains id (j ∷ ids) = id == j || contains id ids

-- `~std::uint8_t{0x07}` is 0xf8 on the eight bits of the flags.
unfoldable pub read_contact : List ℕ → List ℕ → Result Contact
read_contact p identifiers = do
  throw_if (read_u16 (drop 6 p) != 0) reserved_nonzero
  let contact = contact_at p
  throw_if (bit_and contact.flags 0xf8 != 0) unknown_contact_flags
  require_finite_contact contact
  throw_if (contains contact.identifier identifiers) duplicate_identifier
  ok contact

-- The loop, with `n` rounds left.
unfoldable pub read_contacts : ℕ → ℕ → List ℕ → List ℕ → Result (List Contact)
read_contacts zero index bytes identifiers = ok []
read_contacts (suc n) index bytes identifiers = do
  contact ← read_contact (drop (k_header_size + index * k_contact_size) bytes) identifiers
  rest ← read_contacts n (index + 1) bytes (contact.identifier ∷ identifiers)
  ok (contact ∷ rest)

unfoldable pub decode_message : List ℕ → Result Message
decode_message bytes = do
  throw_if (ltb (length bytes) k_header_size) truncated_header
  expected ← validate_header (take k_header_size bytes)
  throw_if (length bytes != expected) length_mismatch
  kind ← read_type (read_u16 (drop 6 bytes))
  contacts ← read_contacts (read_u16 (drop 16 bytes)) 0 bytes []
  ok (record {
    type = kind;
    sequence = read_u32 (drop 12 bytes);
    capture_time_us = read_u64 (drop 20 bytes);
    device_time_us = read_u64 (drop 28 bytes);
    flags = read_u16 (drop 18 bytes);
    contacts = contacts;
  })
