-- ===== src/Wire/Layout.antt =====
-- protocol/TouchFrame.c: where the encoder puts the header and the contacts, and that the decoder's
-- loads find them there.
use mathlib.Core.List.{append_assoc}
use touchpad.Base.{
  ℕ, zero, suc, ◌+◌, ◌*◌, ◌%◌, ◌^◌, ◌≤◌, ◌<◌, ◌≡◌, ◌∙◌, refl, ap, ap₂, List, [], ◌∷◌, ◌++◌, drop,
  take, length, length-append, drop-append, All, arith,
}
use touchpad.Wire.Types.{
  Contact, Frame, IsContact, IsFrame, wire_magic, wire_version, header_size, contact_size,
}
use touchpad.Wire.Bytes.{
  get_u16, get_u32, get_u64, get_u16-put_u16, get_u32-put_u32, get_u64-put_u64, get_f32-put_f32,
}
use touchpad.Wire.Encode.{put_contact, put_contacts, put_header}
use touchpad.Wire.Decode.{get_contact, get_contacts}

pub length-put_contact : (c : Contact) → length (put_contact c) ≡ contact_size
unfolding put_contact
length-put_contact c = refl

pub length-put_header :
    (type payload count flags : ℕ) (f : Frame)
    → length (put_header type payload count flags f) ≡ header_size
unfolding put_header
length-put_header type payload count flags f = refl

pub length-put_contacts :
    (n : ℕ) (cs : List Contact) → n ≤ length cs → length (put_contacts n cs) ≡ n * contact_size
unfolding put_contacts
length-put_contacts zero cs h = refl
length-put_contacts (suc n) [] h = elim h [ ]
length-put_contacts (suc n) (c ∷ cs) h = omega (
  arith,
  length-append (put_contact c) (put_contacts n cs),
  length-put_contact c,
  length-put_contacts n cs (omega arith),
)

-- A contact is read back from the bytes that were written for it.
pub get_contact-put_contact :
    (c : Contact) (r : List ℕ) → IsContact c → get_contact (put_contact c ++ r) ≡ c
unfolding get_contact put_contact
get_contact-put_contact c r h = λ i. record {
  identifier = get_u32-put_u32 c.identifier (drop 4 (put_contact c ++ r)) h.identifier i;
  state = c.state;
  flags = c.flags;
  x = get_f32-put_f32 c.x (drop 12 (put_contact c ++ r)) h.x i;
  y = get_f32-put_f32 c.y (drop 16 (put_contact c ++ r)) h.y i;
  velocity_x = get_f32-put_f32 c.velocity_x (drop 20 (put_contact c ++ r)) h.velocity_x i;
  velocity_y = get_f32-put_f32 c.velocity_y (drop 24 (put_contact c ++ r)) h.velocity_y i;
  size = get_f32-put_f32 c.size (drop 28 (put_contact c ++ r)) h.size i;
  angle = get_f32-put_f32 c.angle (drop 32 (put_contact c ++ r)) h.angle i;
  major_axis = get_f32-put_f32 c.major_axis (drop 36 (put_contact c ++ r)) h.major_axis i;
  minor_axis = get_f32-put_f32 c.minor_axis (drop 40 (put_contact c ++ r)) h.minor_axis i;
  density = get_f32-put_f32 c.density (drop 44 (put_contact c ++ r)) h.density i;
}

-- The pointer of round `index`, where the contacts stand behind the bytes before them.
pub drop-put_contacts :
    (index : ℕ) (pre : List ℕ) (c : Contact) (rest r : List ℕ)
    → length pre ≡ header_size + index * contact_size
    → drop (header_size + index * contact_size) (pre ++ ((put_contact c ++ rest) ++ r))
      ≡ put_contact c ++ (rest ++ r)
drop-put_contacts index pre c rest r e =
    drop-append pre ((put_contact c ++ rest) ++ r) (header_size + index * contact_size)
      (omega arith)
    ∙ append_assoc (put_contact c) rest r

-- The loop reads the contacts that were written behind any bytes of the right length.
pub get_contacts-put_contacts :
    (n index : ℕ) (pre : List ℕ) (cs : List Contact) (r : List ℕ)
    → length pre ≡ header_size + index * contact_size
    → n ≤ length cs
    → All IsContact cs
    → get_contacts n index (pre ++ (put_contacts n cs ++ r)) ≡ take n cs
unfolding get_contacts put_contacts
get_contacts-put_contacts zero index pre cs r e h v = refl
get_contacts-put_contacts (suc n) index pre [] r e h v = elim h [ ]
get_contacts-put_contacts (suc n) index pre (c ∷ cs) r e h v = ap₂ ◌∷◌ first (
    ap (get_contacts n (index + 1)) (simp append_assoc)
    ∙ get_contacts-put_contacts n (index + 1) (pre ++ put_contact c) cs r
        (omega (arith, length-append pre (put_contact c), length-put_contact c)) (omega arith) v.1)
  where
    first :
        get_contact (
          drop
            (header_size + index * contact_size)
            (pre ++ ((put_contact c ++ put_contacts n cs) ++ r)))
        ≡ c
    first =
        ap get_contact (drop-put_contacts index pre c (put_contacts n cs) r e)
        ∙ get_contact-put_contact c (put_contacts n cs ++ r) v.0

-- What the loads of a header find at their offsets.
pub record Reads (source : List ℕ) (type payload_size count flags : ℕ) (f : Frame) : Type 0 where
  pub magic : get_u32 source ≡ wire_magic
  pub version : get_u16 (drop 4 source) ≡ wire_version
  pub type_at : get_u16 (drop 6 source) ≡ type
  pub payload_at : get_u32 (drop 8 source) ≡ payload_size
  pub sequence : get_u32 (drop 12 source) ≡ f.sequence
  pub count_at : get_u16 (drop 16 source) ≡ count
  pub flags_at : get_u16 (drop 18 source) ≡ flags
  pub capture_time : get_u64 (drop 20 source) ≡ f.capture_time_us
  pub device_time : get_u64 (drop 28 source) ≡ f.device_time_us

pub put_header-Reads :
    (type payload_size count flags : ℕ) (f : Frame) (r : List ℕ)
    → type < 2 ^ 16
    → payload_size < 2 ^ 32
    → count < 2 ^ 16
    → flags < 2 ^ 16
    → IsFrame f
    → Reads (put_header type payload_size count flags f ++ r) type payload_size count flags f
unfolding put_header
put_header-Reads type payload_size count flags f r ht hp hc hf v = record {
  magic = get_u32-put_u32 wire_magic (drop 4 s) (omega arith);
  version = get_u16-put_u16 wire_version (drop 6 s) (omega arith);
  type_at = get_u16-put_u16 (type % 2 ^ 16) (drop 8 s) (omega arith) ∙ omega arith;
  payload_at = get_u32-put_u32 payload_size (drop 12 s) hp;
  sequence = get_u32-put_u32 f.sequence (drop 16 s) v.sequence;
  count_at = get_u16-put_u16 count (drop 18 s) hc;
  flags_at = get_u16-put_u16 flags (drop 20 s) hf;
  capture_time = get_u64-put_u64 f.capture_time_us (drop 28 s) v.capture_time_us;
  device_time = get_u64-put_u64 f.device_time_us (drop 36 s) v.device_time_us;
}
  where
    s : List ℕ
    s = put_header type payload_size count flags f ++ r
