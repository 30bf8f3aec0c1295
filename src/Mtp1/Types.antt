-- ===== src/Mtp1/Types.antt =====
-- windows/receiver/Mtp1.h: limits, messages, and exceptions as results.
use touchpad.Base.{ℕ, ◌+◌, ◌*◌, Bool, true, false, List}
use touchpad.Wire.Types.{Contact}

abbrev pub k_header_size : ℕ
k_header_size = 36

abbrev pub k_contact_size : ℕ
k_contact_size = 44

abbrev pub k_max_contacts : ℕ
k_max_contacts = 10

abbrev pub k_max_message_size : ℕ
k_max_message_size = k_header_size + k_max_contacts * k_contact_size

abbrev pub k_frame_button : ℕ
k_frame_button = 0x0001

pub data MessageType : Type 0 where
  hello frame reset : MessageType

pub record Message : Type 0 where
  pub type : MessageType
  pub sequence : ℕ
  pub capture_time_us : ℕ
  pub device_time_us : ℕ
  pub flags : ℕ
  pub contacts : List Contact

-- The texts of `ProtocolError`, and the `std::logic_error` of `PopMessage`.
pub data Error : Type 0 where
  unknown_message_type not_finite invalid_magic unsupported_version invalid_header_flags : Error
  invalid_payload control_with_contacts truncated_header length_mismatch : Error
  reserved_nonzero unknown_contact_flags duplicate_identifier : Error
  buffer_limit no_decoded_message : Error
  sequence_discontinuity unexpected_hello before_hello frame_before_reset : Error
  too_many_contacts report_capacity no_free_slot : Error

pub data Result {ℓ} (A : Type ℓ) : Type ℓ where
  ok : A → Result A
  err : Error → Result A

-- What follows a call that may throw: with its value, or without.
infixl 5 ◌>>=◌ ◌>>◌
abbrev pub ◌>>=◌ {ℓ κ} :
    {Value : Type ℓ} {Then : Type κ} → Result Value → (Value → Result Then) → Result Then
err thrown >>= next = err thrown
ok value >>= next = next value

abbrev pub ◌>>◌ {ℓ} : {B : Type ℓ} → Result (Unit {0}) → Result B → Result B
first >> second = first >>= λ _. second

-- `if (bad) throw e;`
abbrev pub throw_if : Bool → Error → Result (Unit {0})
throw_if true e = err e
throw_if false e = ok tt
