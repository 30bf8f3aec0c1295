-- ===== src/Mtp1/Decoded.antt =====
-- windows/receiver/Mtp1.cpp: what `DecodeMessage` lets through, beside `tp_decode_message`.
use touchpad.Base.{
  ℕ, zero, suc, ◌+◌, ◌-◌, ◌*◌, ◌^◌, ◌≤◌, ◌<◌, ◌≡◌, ◌∙◌, sym, subst, ap, ap₂, refl, true, false,
  List, [], ◌∷◌, ◌!=◌, ltb, bit_and, get_or, drop, take, length, length-take, take-append-drop,
  eq-nil_of_length, arith, and_not_seven, All, All-drop, some, replicate, take-append,
}
use touchpad.Wire.Types.{Contact, Frame, IsByte, zero_contact, max_contacts, wire_magic}
use touchpad.Wire.Bytes.{get_u16, get_u32, get_f32, get_u32-sum}
use touchpad.Wire.Ranges.{get_or-IsByte, Accepted, Accepted-decode_message, length-get_contacts}
use touchpad.Wire.Decode.{get_contact, get_contacts, read_frame}
use touchpad.Wire.Decode as Codec
use touchpad.Wire.Inside.{u16_inside_at, u32_inside_at}
use touchpad.Mtp1.Types.{Message, ok, k_header_size, k_contact_size}
use touchpad.Mtp1.Header.{
  read_u16, read_u32, read_u64, read_f32, read_u16-eq, read_u32-eq, read_u64-eq, read_type,
  is_control, wrong_magic, validate_header,
}
use touchpad.Mtp1.Message.{
  require_finite_contact, contact_at, contains, read_contact, read_contacts, decode_message,
}
use touchpad.Mtp1.Valid.{
  code, ValidHeader, read_type-code, ValidMessage, ValidContact, FreshIds, throw_if-ok, >>=-ok,
  require_finite_contact-ok, validate_header-ValidHeader,
}

pub contact_at-eq : (p : List ℕ) → contact_at p ≡ get_contact p
unfolding contact_at get_contact read_f32 read_u32 get_f32 get_u32
contact_at-eq p = refl

flags_at : (p : List ℕ) → All IsByte p → (get_contact p).flags < 2 ^ 8
unfolding get_contact
flags_at p h = get_or-IsByte p 5 h

read_contact-ok :
    (p ids : List ℕ) (c : Contact)
    → All IsByte p
    → read_contact p ids ≡ ok c
    → (c ≡ get_contact p) × ValidContact c × (contains c.identifier ids ≡ false)
unfolding read_contact
read_contact-ok p ids c h e =
    let (r, e₁) = throw_if-ok (read_u16 (drop 6 p) != 0) _ _ e in
    let (f, e₂) = throw_if-ok (bit_and (contact_at p).flags 0xf8 != 0) _ _ e₁ in
    let (u, fin, e₃) = >>=-ok (require_finite_contact (contact_at p)) _ e₂ in
    let (d, e₄) = throw_if-ok (contains (contact_at p).identifier ids) _ _ e₃ in
    let same : contact_at p ≡ c = cc in
    (
      sym same ∙ contact_at-eq p,
      subst ValidContact same (
          require_finite_contact-ok (contact_at p) fin
            (ground (arith, f, and_not_seven (contact_at p).flags, contact_at-eq p, flags_at p h))),
      subst (λ (k : Contact). contains k.identifier ids ≡ false) same d,
    )

ok_injective {ℓ} : {A : Type ℓ} (a b : A) → ok a ≡ ok b → a ≡ b
ok_injective a b e = cc

-- The loop reads what the wire codec reads; each contact is valid, and no identifier comes twice.
read_contacts-ok :
    (n index : ℕ) (bytes ids : List ℕ) (cs : List Contact)
    → All IsByte bytes
    → read_contacts n index bytes ids ≡ ok cs
    → (cs ≡ get_contacts n index bytes) × All ValidContact cs × FreshIds ids cs
unfolding read_contacts get_contacts
read_contacts-ok zero index bytes ids [] h e = (refl, tt, tt)
read_contacts-ok zero index bytes ids (c ∷ cs) h e = absurd (cc)
read_contacts-ok (suc n) index bytes ids cs h e =
    let p : List ℕ = drop (k_header_size + index * k_contact_size) bytes in
    let (c, ec, e₁) = >>=-ok (read_contact p ids) _ e in
    let (rest, er, e₂) = >>=-ok (read_contacts n (index + 1) bytes (c.identifier ∷ ids)) _ e₁ in
    let (same, valid, fresh) = read_contact-ok p ids c (All-drop IsByte _ bytes h) ec in
    let (sames, valids, freshs) =
      read_contacts-ok n (index + 1) bytes (c.identifier ∷ ids) rest h er in
    let whole : c ∷ rest ≡ cs = cc in
    subst (λ l. (l ≡ get_contacts (suc n) index bytes) × All ValidContact l × FreshIds ids l) whole
      (ap₂ ◌∷◌ same sames, (valid, valids), (fresh, freshs))

-- The header is a copy of the first bytes: loads inside it are loads of the whole message.
module _ (bytes : List ℕ) (long : k_header_size ≤ length bytes) (i : ℕ) where
  pub header_u16 :
      i + 2 ≤ k_header_size → read_u16 (drop i (take k_header_size bytes)) ≡ get_u16 (drop i bytes)
  header_u16 h =
      read_u16-eq _
      ∙ sym (
          u16_inside_at (take k_header_size bytes) (drop k_header_size bytes) i
            (omega (arith, length-take k_header_size bytes)))
      ∙ ap (λ l. get_u16 (drop i l)) (take-append-drop k_header_size bytes)

  pub header_u32 :
      i + 4 ≤ k_header_size → read_u32 (drop i (take k_header_size bytes)) ≡ get_u32 (drop i bytes)
  header_u32 h =
      read_u32-eq _
      ∙ sym (
          u32_inside_at (take k_header_size bytes) (drop k_header_size bytes) i
            (omega (arith, length-take k_header_size bytes)))
      ∙ ap (λ l. get_u32 (drop i l)) (take-append-drop k_header_size bytes)

-- "MTP1" is the magic number in big-endian order.
pub magic_number : (s : List ℕ) → wrong_magic s ≡ false → get_u32 s ≡ wire_magic
unfolding get_u32
magic_number s e =
    get_u32-sum (get_or s 0 0) (get_or s 1 0) (get_or s 2 0) (get_or s 3 0) [] (ground arith)
      (ground arith) (ground arith) (ground arith)
    ∙ ground arith

-- The frame that `tp_decode_message` makes of the bytes holds the message.
pub record SameContent (m : Message) (r : ℕ × Frame) : Type 0 where
  pub type : r.0 ≡ code m.type
  pub sequence : r.1.sequence ≡ m.sequence
  pub flags : r.1.flags ≡ m.flags
  pub capture_time : r.1.capture_time_us ≡ m.capture_time_us
  pub device_time : r.1.device_time_us ≡ m.device_time_us
  pub count : r.1.contact_count ≡ length m.contacts
  pub contacts : take r.1.contact_count r.1.contacts ≡ m.contacts

-- The steps of a call that returns.
record Steps (bytes : List ℕ) (m : Message) : Type 0 where
  long : k_header_size ≤ length bytes
  header : ValidHeader (take k_header_size bytes) (length bytes)
  type_ok : read_type (read_u16 (drop 6 bytes)) ≡ ok m.type
  contacts : read_contacts (read_u16 (drop 16 bytes)) 0 bytes [] ≡ ok m.contacts
  sequence : m.sequence ≡ read_u32 (drop 12 bytes)
  capture_time : m.capture_time_us ≡ read_u64 (drop 20 bytes)
  device_time : m.device_time_us ≡ read_u64 (drop 28 bytes)
  flags : m.flags ≡ read_u16 (drop 18 bytes)

decode_message-Steps : (bytes : List ℕ) (m : Message) → decode_message bytes ≡ ok m → Steps bytes m
unfolding decode_message
decode_message-Steps bytes m e =
    let (short, e₁) = throw_if-ok (ltb (length bytes) k_header_size) _ _ e in
    let (n, ev, e₂) = >>=-ok (validate_header (take k_header_size bytes)) _ e₁ in
    let (size, e₃) = throw_if-ok (length bytes != n) _ _ e₂ in
    let (t, et, e₄) = >>=-ok (read_type (read_u16 (drop 6 bytes))) _ e₃ in
    let (cs, ec, e₅) = >>=-ok (read_contacts (read_u16 (drop 16 bytes)) 0 bytes []) _ e₄ in
    let whole : n ≡ length bytes = ground (arith, size) in
    let header : ValidHeader (take k_header_size bytes) (length bytes) =
      subst (ValidHeader (take k_header_size bytes)) whole
        (validate_header-ValidHeader (take k_header_size bytes) n ev) in
    subst (Steps bytes) (ok_injective _ m e₅) (record {
      long = ground (arith, short);
      header = header;
      type_ok = et;
      contacts = ec;
      sequence = refl;
      capture_time = refl;
      device_time = refl;
      flags = refl;
    })

module _ {bytes : List ℕ} {m : Message} (h : All IsByte bytes) (s : Steps bytes m) where
  Steps-contacts :
      (m.contacts ≡ get_contacts (get_u16 (drop 16 bytes)) 0 bytes)
      × All ValidContact m.contacts
      × FreshIds [] m.contacts
  Steps-contacts =
      rw (← read_u16-eq (drop 16 bytes))
        (read_contacts-ok (read_u16 (drop 16 bytes)) 0 bytes [] m.contacts h s.contacts)

  Steps-length : length m.contacts ≡ get_u16 (drop 16 bytes)
  Steps-length = ap length Steps-contacts.0 ∙ length-get_contacts (get_u16 (drop 16 bytes)) 0 bytes

  -- The copied header, read as the wire codec reads the message.
  Steps-Accepted : Accepted bytes (length bytes)
  Steps-Accepted = record {
    magic =
        sym (header_u32 bytes s.long 0 (omega arith))
        ∙ read_u32-eq _
        ∙ magic_number _ s.header.magic;
    version = sym (header_u16 bytes s.long 4 (omega arith)) ∙ s.header.version;
    at_least = ground (arith, header_u16 bytes s.long 6, s.header);
    at_most = ground (arith, header_u16 bytes s.long 6, s.header);
    count = omega (arith, header_u16 bytes s.long 16, s.header.count);
    payload =
        omega (arith, header_u16 bytes s.long 16, header_u32 bytes s.long 8, s.header.payload);
    size = omega (arith, header_u16 bytes s.long 16, s.header.size);
    flags = omega (arith, header_u16 bytes s.long 18, s.header.flags);
    control = ground (
      arith,
      header_u16 bytes s.long 6,
      header_u16 bytes s.long 16,
      header_u16 bytes s.long 18,
      s.header,
    );
  }

  Steps-type : get_u16 (drop 6 bytes) ≡ code m.type
  Steps-type = ground (
    arith,
    read_u16-eq (drop 6 bytes),
    read_type-code (read_u16 (drop 6 bytes)) m.type,
    s.type_ok,
  )

  Steps-SameContent : SameContent m (read_frame bytes)
  unfolding read_frame
  Steps-SameContent = record {
    type = Steps-type;
    sequence = sym (s.sequence ∙ read_u32-eq (drop 12 bytes));
    flags = sym (s.flags ∙ read_u16-eq (drop 18 bytes));
    capture_time = sym (s.capture_time ∙ read_u64-eq (drop 20 bytes));
    device_time = sym (s.device_time ∙ read_u64-eq (drop 28 bytes));
    count = sym Steps-length;
    contacts =
        take-append (get_contacts n 0 bytes) (replicate (max_contacts - n) zero_contact) n
          (sym (length-get_contacts n 0 bytes))
        ∙ sym Steps-contacts.0;
  }
    where
      n : ℕ
      n = get_u16 (drop 16 bytes)

  Steps-empty : is_control m.type ≡ true → (length m.contacts ≡ 0) × (m.flags ≡ 0)
  Steps-empty k = ground (
    arith,
    Steps-Accepted.control,
    Steps-type,
    Steps-length,
    s.flags,
    read_u16-eq (drop 18 bytes),
  )

  Steps-ValidMessage : ValidMessage m
  Steps-ValidMessage = record {
    flags = omega (arith, s.flags, read_u16-eq (drop 18 bytes), Steps-Accepted.flags);
    count = omega (arith, Steps-length, Steps-Accepted.count);
    contacts = Steps-contacts.1;
    fresh = Steps-contacts.2;
    control = λ k. (eq-nil_of_length m.contacts (Steps-empty k).0, (Steps-empty k).1);
  }

-- A message that `DecodeMessage` returns satisfies `ValidMessage`: at most ten contacts, of finite
-- coordinates and known flags, with identifiers that differ, no flag but the button, and neither
-- contacts nor flags in a control message. `tp_decode_message` accepts the same bytes, and stores a
-- frame of the same type, sequence number, flags, times and contacts.
pub decode_message-ValidMessage :
    (bytes : List ℕ) (m : Message)
    → All IsByte bytes
    → decode_message bytes ≡ ok m
    → ValidMessage m
      × (Codec.decode_message (some bytes) (length bytes) true true ≡ some (read_frame bytes))
      × SameContent m (read_frame bytes)
decode_message-ValidMessage bytes m h e =
    let s = decode_message-Steps bytes m e in
    (Steps-ValidMessage h s, Accepted-decode_message (Steps-Accepted h s), Steps-SameContent h s)
