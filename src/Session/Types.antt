-- ===== src/Session/Types.antt =====
-- windows/receiver/TouchSession.h: the state of a session. Times are nanoseconds of the steady clock.
use touchpad.Base.{ℕ, ◌*◌, Bool, true, false, not, ◌||◌, List, [], ◌∷◌, Option, none, replicate}
use touchpad.Wire.Types.{Contact}
use touchpad.Ioctl.{hid_max_contacts}

-- `std::unordered_map<std::uint32_t, std::uint8_t>`: identifiers with their slots
abbrev pub SlotMap : Type 0
SlotMap = List (ℕ × ℕ)

-- `std::array<std::optional<Contact>, MTP_HID_MAX_CONTACTS>`
abbrev pub SlotContacts : Type 0
SlotContacts = List (Option Contact)

pub record TouchSession : Type 0 where
  pub hello_seen : Bool
  pub reset_seen : Bool
  pub sequence_seen : Bool
  pub button_down : Bool
  pub previous_sequence : ℕ
  pub slots : SlotMap
  pub previous_contacts : SlotContacts
  pub last_frame_time : ℕ

abbrev pub no_contacts : SlotContacts
no_contacts = replicate hid_max_contacts none

abbrev pub new_session : TouchSession
new_session = record {
  hello_seen = false;
  reset_seen = false;
  sequence_seen = false;
  button_down = false;
  previous_sequence = 0;
  slots = [];
  previous_contacts = no_contacts;
  last_frame_time = 0;
}

-- `kTip`, and `static_cast<std::uint8_t>(~kTip)`
abbrev pub k_tip : ℕ
k_tip = 0x02

abbrev pub not_tip : ℕ
not_tip = 0xfd

-- 200 milliseconds
abbrev pub k_frame_timeout : ℕ
k_frame_timeout = 200 * 1_000_000

abbrev pub is_empty {ℓ} : {A : Type ℓ} → List A → Bool
is_empty [] = true
is_empty (x ∷ xs) = false

unfoldable pub has_active_contacts : TouchSession → Bool
has_active_contacts s = not (is_empty s.slots) || s.button_down
