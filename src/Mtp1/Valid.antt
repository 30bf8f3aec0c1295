-- ===== src/Mtp1/Valid.antt =====
-- windows/receiver/Mtp1.cpp: what a validated header and a decoded message satisfy.
use touchpad.Base.{
  ℕ, ◌+◌, ◌*◌, ◌%◌, ◌^◌, ◌≤◌, ◌<◌, ◌≡◌, refl, Bool, true, false, List, [], ◌∷◌, ◌!=◌, ◌||◌, ◌&&◌,
  ltb, bit_and, drop, length, arith, and_not_one, All,
}
use touchpad.Wire.Types.{Contact}
use touchpad.Wire.Ranges.{get_u16-lt}
use touchpad.Mtp1.Types.{
  Message, MessageType, hello, frame, reset, Error, Result, ok, err, ◌>>=◌, ◌>>◌, throw_if,
  k_header_size, k_contact_size, k_max_contacts, k_max_message_size,
}
use touchpad.Mtp1.Header.{
  read_u16, read_u32, read_u16-eq, read_type, is_control, wrong_magic, validate_header,
}
use touchpad.Mtp1.Message.{is_finite, require_finite_contact, contains}

-- The number that stands for a message type on the wire.
abbrev pub code : MessageType → ℕ
code hello = 1
code frame = 2
code reset = 3

pub record ValidHeader (h : List ℕ) (n : ℕ) : Type 0 where
  pub type : MessageType
  pub magic : wrong_magic h ≡ false
  pub version : read_u16 (drop 4 h) ≡ 1
  pub type_at : read_u16 (drop 6 h) ≡ code type
  pub flags : read_u16 (drop 18 h) < 2
  pub count : read_u16 (drop 16 h) ≤ k_max_contacts
  pub payload : read_u32 (drop 8 h) ≡ read_u16 (drop 16 h) * k_contact_size
  pub size : n ≡ k_header_size + read_u16 (drop 16 h) * k_contact_size
  pub control : is_control type ≡ true → (read_u16 (drop 16 h) ≡ 0) × (read_u16 (drop 18 h) ≡ 0)

pub read_type-code : (v : ℕ) (t : MessageType) → read_type v ≡ ok t → v ≡ code t
unfolding read_type
read_type-code v t e = ground arith

pub code-read_type : (t : MessageType) → read_type (code t) ≡ ok t
unfolding read_type
code-read_type hello = refl
code-read_type frame = refl
code-read_type reset = refl

read_u16-lt : (p : List ℕ) → read_u16 p < 2 ^ 16
read_u16-lt p = omega (arith, read_u16-eq p, get_u16-lt p)

-- Inversion of the steps of a `do` block.
pub throw_if-ok {ℓ} :
    {A : Type ℓ} (b : Bool) (e : Error) (m : Result A) {a : A}
    → (throw_if b e >> m) ≡ ok a
    → (b ≡ false) × (m ≡ ok a)
throw_if-ok true e m h = cc
throw_if-ok false e m h = (refl, h)

pub >>=-ok {ℓ κ} :
    {Value : Type ℓ} {Then : Type κ} (call : Result Value) (next : Value → Result Then)
    {answer : Then}
    → (call >>= next) ≡ ok answer
    → (value : Value) × (call ≡ ok value) × (next value ≡ ok answer)
>>=-ok (err thrown) next e = cc
>>=-ok (ok value) next e = (value, refl, e)

pub validate_header-ValidHeader : (h : List ℕ) (n : ℕ) → validate_header h ≡ ok n → ValidHeader h n
unfolding validate_header
validate_header-ValidHeader h n e =
    let (m, e₁) = throw_if-ok (wrong_magic h) _ _ e in
    let (v, e₂) = throw_if-ok (read_u16 (drop 4 h) != 1) _ _ e₁ in
    let (t, type_ok, e₃) = >>=-ok (read_type (read_u16 (drop 6 h))) _ e₂ in
    let (f, e₄) =
      throw_if-ok
        (bit_and (read_u16 (drop 18 h)) 0xfffe != 0 || (is_control t && read_u16 (drop 18 h) != 0))
        _ _ e₃ in
    let (p, e₅) =
      throw_if-ok
        (ltb k_max_contacts (read_u16 (drop 16 h))
          || read_u32 (drop 8 h) != read_u16 (drop 16 h) * k_contact_size % 2 ^ 32)
        _ _ e₄ in
    let (c, e₆) = throw_if-ok (is_control t && read_u16 (drop 16 h) != 0) _ _ e₅ in
    record {
      type = t;
      magic = m;
      version = ground arith;
      type_at = read_type-code (read_u16 (drop 6 h)) t type_ok;
      flags = ground (arith, f, read_u16-lt (drop 18 h), and_not_one (read_u16 (drop 18 h)));
      count = ground arith;
      payload = ground arith;
      size = ground arith;
      control = λ k. (ground arith, ground arith);
    }

module _ (h : List ℕ) where
  -- A validated header asks for a message of at least the header and at most the largest size.
  pub validate_header_bounds :
      (n : ℕ) → validate_header h ≡ ok n → (k_header_size ≤ n) × (n ≤ k_max_message_size)
  validate_header_bounds n e =
      let v = validate_header-ValidHeader h n e in omega (arith, v.size, v.count)

  pub ValidHeader-validate_header : (n : ℕ) → ValidHeader h n → validate_header h ≡ ok n
  unfolding validate_header
  ValidHeader-validate_header n v =
      rw (v.magic, v.version, v.type_at, code-read_type)
        (ground (arith, read_u16-lt (drop 18 h), and_not_one (read_u16 (drop 18 h)), v))

-- A contact that `DecodeMessage` lets through.
pub record ValidContact (c : Contact) : Type 0 where
  pub flags : c.flags < 8
  pub x : is_finite c.x ≡ true
  pub y : is_finite c.y ≡ true
  pub velocity_x : is_finite c.velocity_x ≡ true
  pub velocity_y : is_finite c.velocity_y ≡ true
  pub size : is_finite c.size ≡ true
  pub angle : is_finite c.angle ≡ true
  pub major_axis : is_finite c.major_axis ≡ true
  pub minor_axis : is_finite c.minor_axis ≡ true
  pub density : is_finite c.density ≡ true

-- No identifier occurs twice, nor in `seen`.
abbrev pub FreshIds : List ℕ → List Contact → Type 0
FreshIds seen [] = Unit
FreshIds seen (c ∷ cs) = (contains c.identifier seen ≡ false) × FreshIds (c.identifier ∷ seen) cs

pub require_finite_contact-ok :
    (c : Contact) → require_finite_contact c ≡ ok tt → c.flags < 8 → ValidContact c
unfolding require_finite_contact
require_finite_contact-ok c e h = ground arith

-- What `DecodeMessage` promises of a message.
pub record ValidMessage (m : Message) : Type 0 where
  pub flags : m.flags < 2
  pub count : length m.contacts ≤ k_max_contacts
  pub contacts : All ValidContact m.contacts
  pub fresh : FreshIds [] m.contacts
  pub control : is_control m.type ≡ true → (m.contacts ≡ []) × (m.flags ≡ 0)
