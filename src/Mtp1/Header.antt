-- ===== src/Mtp1/Header.antt =====
-- windows/receiver/Mtp1.cpp: the loads, and `ValidateHeader`.
use touchpad.Base.{
  ℕ, ◌+◌, ◌*◌, ◌%◌, ◌^◌, ◌≡◌, refl, Bool, true, false, List, ◌==◌, ◌!=◌, ◌&&◌, ◌||◌, if◌then◌else◌,
  ltb, bit_and, bit_or, get_or, drop,
}
use touchpad.Wire.Bytes.{get_u16, get_u32, get_u64, get_f32}
use touchpad.Mtp1.Types.{
  MessageType, hello, frame, reset, Result, ok, err, ◌>>=◌, ◌>>◌, throw_if, k_header_size,
  k_contact_size, k_max_contacts, unknown_message_type, invalid_magic, unsupported_version,
  invalid_header_flags, invalid_payload, control_with_contacts,
}

unfoldable pub read_u16 : List ℕ → ℕ
read_u16 p = bit_or (get_or p 0 0 * 2 ^ 8) (get_or p 1 0) % 2 ^ 16

unfoldable pub read_u32 : List ℕ → ℕ
read_u32 p =
    bit_or
      (bit_or (bit_or (get_or p 0 0 * 2 ^ 24 % 2 ^ 32) (get_or p 1 0 * 2 ^ 16 % 2 ^ 32))
        (get_or p 2 0 * 2 ^ 8 % 2 ^ 32))
      (get_or p 3 0)

unfoldable pub read_u64 : List ℕ → ℕ
read_u64 p = bit_or (read_u32 p * 2 ^ 32 % 2 ^ 64) (read_u32 (drop 4 p))

-- `std::bit_cast` keeps the pattern.
unfoldable pub read_f32 : List ℕ → ℕ
read_f32 p = read_u32 p

unfoldable pub read_type : ℕ → Result MessageType
read_type value =
    if value == 1
    then ok hello
    else if value == 2
    then ok frame
    else if value == 3
    then ok reset
    else err unknown_message_type

-- `type != MessageType::Frame`
abbrev pub is_control : MessageType → Bool
is_control frame = false
is_control _ = true

-- `std::memcmp(header.data(), "MTP1", 4) != 0`
abbrev pub wrong_magic : List ℕ → Bool
wrong_magic header =
    get_or header 0 0 != b'M'
    || (get_or header 1 0 != b'T' || (get_or header 2 0 != b'P' || get_or header 3 0 != b'1'))

-- `~kFrameButton` is 0xfffe on the sixteen bits of `flags`.
unfoldable pub validate_header : List ℕ → Result ℕ
validate_header header = do
  throw_if (wrong_magic header) invalid_magic
  throw_if (read_u16 (drop 4 header) != 1) unsupported_version
  type ← read_type (read_u16 (drop 6 header))
  let payload = read_u32 (drop 8 header)
  let count = read_u16 (drop 16 header)
  let flags = read_u16 (drop 18 header)
  throw_if (bit_and flags 0xfffe != 0 || (is_control type && flags != 0)) invalid_header_flags
  throw_if (ltb k_max_contacts count || payload != count * k_contact_size % 2 ^ 32) invalid_payload
  throw_if (is_control type && count != 0) control_with_contacts
  ok (k_header_size + payload)

-- The loads are those of the wire codec.
pub read_u16-eq : (p : List ℕ) → read_u16 p ≡ get_u16 p
unfolding read_u16 get_u16
read_u16-eq p = refl

pub read_u32-eq : (p : List ℕ) → read_u32 p ≡ get_u32 p
unfolding read_u32 get_u32
read_u32-eq p = refl

pub read_u64-eq : (p : List ℕ) → read_u64 p ≡ get_u64 p
unfolding read_u64 read_u32 get_u64 get_u32
read_u64-eq p = refl

pub read_f32-eq : (p : List ℕ) → read_f32 p ≡ get_f32 p
unfolding read_f32 read_u32 get_f32 get_u32
read_f32-eq p = refl
