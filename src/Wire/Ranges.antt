-- ===== src/Wire/Ranges.antt =====
-- protocol/TouchFrame.c: what `tp_decode_message` lets through.
use touchpad.Base.{
  ℕ, zero, suc, ◌+◌, ◌-◌, ◌*◌, ◌^◌, ◌≤◌, ◌<◌, ◌≡◌, sym, subst, ◌⊎◌, refl, ap, true, some, List, [],
  ◌∷◌, drop, get_or, replicate, length, length-append, length-replicate, All, All-append, All-drop,
  All-replicate, arith, and_not_one,
}
use touchpad.Wire.Types.{
  Frame, IsByte, IsContact, IsFrame, zero_contact, wire_magic, wire_version, max_contacts,
  header_size, contact_size, message_frame,
}
use touchpad.Wire.Bytes.{get_u16, get_u32, get_u64, get_f32, get_u32-sum, join_halves}
use touchpad.Wire.Decode.{get_contact, get_contacts, read_frame, decode_message}
use touchpad.Wire.RoundTrip.{IsSendable, sent_size}

-- Bytes give numbers in range.
pub get_or-IsByte : (s : List ℕ) (i : ℕ) → All IsByte s → get_or s i 0 < 2 ^ 8
get_or-IsByte [] i h = omega arith
get_or-IsByte (b ∷ s) zero h = h.0
get_or-IsByte (b ∷ s) (suc i) h = get_or-IsByte s i h.1

pub get_u16-lt : (s : List ℕ) → get_u16 s < 2 ^ 16
unfolding get_u16
get_u16-lt s = omega arith

pub get_u32-lt : (s : List ℕ) → All IsByte s → get_u32 s < 2 ^ 32
unfolding get_u32
get_u32-lt s h = omega (
  arith,
  get_u32-sum (get_or s 0 0) (get_or s 1 0) (get_or s 2 0) (get_or s 3 0) [] (get_or-IsByte s 0 h)
      (get_or-IsByte s 1 h) (get_or-IsByte s 2 h) (get_or-IsByte s 3 h),
  get_or-IsByte s 0 h,
  get_or-IsByte s 1 h,
  get_or-IsByte s 2 h,
  get_or-IsByte s 3 h,
)

pub get_u64-lt : (s : List ℕ) → All IsByte s → get_u64 s < 2 ^ 64
unfolding get_u64
get_u64-lt s h = omega (
  arith,
  get_u32-lt s h,
  get_u32-lt (drop 4 s) (All-drop IsByte 4 s h),
  join_halves (get_u32 s) (get_u32 (drop 4 s)) (get_u32-lt s h)
      (get_u32-lt (drop 4 s) (All-drop IsByte 4 s h)),
)

module _ (s : List ℕ) (h : All IsByte s) where
  f32_at : (i : ℕ) → get_f32 (drop i s) < 2 ^ 32
  unfolding get_f32
  f32_at i = get_u32-lt (drop i s) (All-drop IsByte i s h)

  pub get_contact-IsContact : IsContact (get_contact s)
  unfolding get_contact
  get_contact-IsContact = record {
    identifier = get_u32-lt s h;
    state = get_or-IsByte s 4 h;
    flags = get_or-IsByte s 5 h;
    x = f32_at 8;
    y = f32_at 12;
    velocity_x = f32_at 16;
    velocity_y = f32_at 20;
    size = f32_at 24;
    angle = f32_at 28;
    major_axis = f32_at 32;
    minor_axis = f32_at 36;
    density = f32_at 40;
  }

get_contacts-IsContact :
    (n index : ℕ) (s : List ℕ) → All IsByte s → All IsContact (get_contacts n index s)
unfolding get_contacts
get_contacts-IsContact zero index s h = tt
get_contacts-IsContact (suc n) index s h = (
  get_contact-IsContact (drop (header_size + index * contact_size) s) (All-drop IsByte _ s h),
  get_contacts-IsContact n (index + 1) s h,
)

pub length-get_contacts : (n index : ℕ) (s : List ℕ) → length (get_contacts n index s) ≡ n
unfolding get_contacts
length-get_contacts zero index s = refl
length-get_contacts (suc n) index s = ap suc (length-get_contacts n (index + 1) s)

-- The tests that an accepted message has passed.
pub record Accepted (s : List ℕ) (n : ℕ) : Type 0 where
  pub magic : get_u32 s ≡ wire_magic
  pub version : get_u16 (drop 4 s) ≡ wire_version
  pub at_least : 1 ≤ get_u16 (drop 6 s)
  pub at_most : get_u16 (drop 6 s) ≤ 3
  pub count : get_u16 (drop 16 s) ≤ max_contacts
  pub payload : get_u32 (drop 8 s) ≡ get_u16 (drop 16 s) * contact_size
  pub size : n ≡ header_size + get_u16 (drop 16 s) * contact_size
  pub flags : get_u16 (drop 18 s) < 2
  pub control :
      (get_u16 (drop 6 s) ≡ message_frame) ⊎ ((get_u16 (drop 16 s) ≡ 0) × (get_u16 (drop 18 s) ≡ 0))

pub decode_message-Accepted :
    (s : List ℕ) (n : ℕ) (r : ℕ × Frame)
    → decode_message (some s) n true true ≡ some r
    → Accepted s n × (r ≡ read_frame s)
unfolding decode_message
decode_message-Accepted s n r e =
    ground (arith, get_u16-lt (drop 18 s), and_not_one (get_u16 (drop 18 s)))

pub Accepted-decode_message :
    {s : List ℕ} {n : ℕ} → Accepted s n → decode_message (some s) n true true ≡ some (read_frame s)
unfolding decode_message
Accepted-decode_message {s} {n} a =
    ground (arith, get_u16-lt (drop 18 s), and_not_one (get_u16 (drop 18 s)))

read_frame-IsFrame :
    (s : List ℕ) → All IsByte s → get_u16 (drop 16 s) ≤ max_contacts → IsFrame (read_frame s).1
unfolding read_frame
read_frame-IsFrame s h small = record {
  sequence = get_u32-lt (drop 12 s) (All-drop IsByte 12 s h);
  capture_time_us = get_u64-lt (drop 20 s) (All-drop IsByte 20 s h);
  device_time_us = get_u64-lt (drop 28 s) (All-drop IsByte 28 s h);
  flags = get_u16-lt (drop 18 s);
  contact_count = get_u16-lt (drop 16 s);
  storage = omega (
    arith,
    length-append (get_contacts n 0 s) (replicate (max_contacts - n) zero_contact),
    length-get_contacts n 0 s,
    length-replicate (max_contacts - n) zero_contact,
  );
  contacts =
      All-append IsContact (get_contacts n 0 s) (replicate (max_contacts - n) zero_contact)
        (get_contacts-IsContact n 0 s h)
        (All-replicate IsContact (max_contacts - n) zero_contact (omega arith));
}
  where
    n : ℕ
    n = get_u16 (drop 16 s)

abbrev FitsSize : ℕ → ℕ × Frame → Type 0
FitsSize n r =
    IsSendable r.0 r.1 × (n ≡ sent_size r.0 r.1) × (n ≤ header_size + max_contacts * contact_size)

read_frame-FitsSize : (s : List ℕ) (n : ℕ) → All IsByte s → Accepted s n → FitsSize n (read_frame s)
unfolding read_frame
read_frame-FitsSize s n h a = (
  record {
    frame = read_frame-IsFrame s h a.count;
    at_least = a.at_least;
    at_most = a.at_most;
    count = a.count;
    flags = ground arith;
  },
  ground arith,
  omega arith,
)

-- Whatever bytes are decoded, the result is a message that the encoder would send, with every field
-- in the range of its C type and the whole contact array there; its size is the length of the input,
-- which is at most `TP_MAX_MESSAGE_SIZE`.
pub decode_message-IsSendable :
    (s : List ℕ) (n : ℕ) {type : ℕ} {f : Frame}
    → All IsByte s
    → decode_message (some s) n true true ≡ some (type, f)
    → IsSendable type f × (n ≡ sent_size type f) × (n ≤ header_size + max_contacts * contact_size)
decode_message-IsSendable s n {type} {f} h e =
    let (a, r) = decode_message-Accepted s n (type, f) e in
    subst (FitsSize n) (sym r) (read_frame-FitsSize s n h a)
