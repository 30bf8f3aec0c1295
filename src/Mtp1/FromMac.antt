-- ===== src/Mtp1/FromMac.antt =====
-- protocol/TouchFrame.c and windows/receiver/Mtp1.cpp together: the receiver decodes what the Mac
-- encodes.
use mathlib.Core.List.{append-nil, append_assoc}
use touchpad.Base.{
  ℕ, zero, suc, ◌+◌, ◌*◌, ◌≤◌, ◌<◌, ◌≡◌, ◌∙◌, sym, subst, ap, refl, true, false, List, [], ◌∷◌,
  ◌++◌, drop, take, length, length-append, take-append, arith, and_not_seven, All,
}
use touchpad.Wire.Types.{Contact, Frame, IsContact, contact_size, header_size}
use touchpad.Wire.Bytes.{get_u16-put_u16}
use touchpad.Wire.Encode.{
  put_contact, put_contacts, put_header, sent_count, sent_flags, message_bytes,
}
use touchpad.Wire.Layout.{
  Reads, put_header-Reads, length-put_header, length-put_contact, get_contact-put_contact,
  drop-put_contacts,
}
use touchpad.Wire.RoundTrip.{
  IsSendable, sent_bytes, sent_size, sent_header, sent_count-le, length-sent_bytes,
}
use touchpad.Mtp1.Types.{Message, MessageType, hello, frame, reset, ok, k_header_size}
use touchpad.Mtp1.Header.{
  read_u16, read_u16-eq, read_u32-eq, read_u64-eq, is_control, wrong_magic, validate_header,
}
use touchpad.Mtp1.Message.{
  require_finite_contact, contains, read_contact, read_contacts, decode_message,
}
use touchpad.Mtp1.Valid.{
  code, code-read_type, ValidHeader, ValidContact, FreshIds, ValidHeader-validate_header,
}
use touchpad.Mtp1.Decoded.{contact_at-eq}

require_finite_contact-valid : (c : Contact) → ValidContact c → require_finite_contact c ≡ ok tt
unfolding require_finite_contact
require_finite_contact-valid c v = ground arith

reserved_zero : (c : Contact) (r : List ℕ) → read_u16 (drop 6 (put_contact c ++ r)) ≡ 0
unfolding put_contact
reserved_zero c r = read_u16-eq _ ∙ get_u16-put_u16 0 (drop 8 (put_contact c ++ r)) (omega arith)

read_contact-put_contact :
    (c : Contact) (r ids : List ℕ)
    → IsContact c
    → ValidContact c
    → contains c.identifier ids ≡ false
    → read_contact (put_contact c ++ r) ids ≡ ok c
unfolding read_contact
read_contact-put_contact c r ids w v fresh =
    rw (reserved_zero, contact_at-eq, get_contact-put_contact c r w, and_not_seven c.flags w.flags)
      (rw (require_finite_contact-valid c v, fresh) (ground (arith, v.flags)))

read_contacts-put_contacts :
    (n index : ℕ) (pre : List ℕ) (cs : List Contact) (r ids : List ℕ)
    → length pre ≡ header_size + index * contact_size
    → n ≤ length cs
    → All IsContact cs
    → All ValidContact (take n cs)
    → FreshIds ids (take n cs)
    → read_contacts n index (pre ++ (put_contacts n cs ++ r)) ids ≡ ok (take n cs)
unfolding read_contacts put_contacts
read_contacts-put_contacts zero index pre cs r ids e h w v u = refl
read_contacts-put_contacts (suc n) index pre [] r ids e h w v u = elim h [ ]
read_contacts-put_contacts (suc n) index pre (c ∷ cs) r ids e h w v u =
    let rest : read_contacts n (index + 1) (pre ++ ((put_contact c ++ put_contacts n cs) ++ r))
          (c.identifier ∷ ids)
        ≡ ok (take n cs) =
      ap (λ l. read_contacts n (index + 1) l (c.identifier ∷ ids)) (simp append_assoc)
      ∙ read_contacts-put_contacts n (index + 1) (pre ++ put_contact c) cs r (c.identifier ∷ ids)
          (omega (arith, length-append pre (put_contact c), length-put_contact c)) (omega arith) w.1
          v.1 u.1 in
    rw (
      drop-put_contacts index pre c (put_contacts n cs) r e,
      read_contact-put_contact c (put_contacts n cs ++ r) ids w.0 v.0 u.0,
      rest,
    )

-- What the receiver makes of a frame.
abbrev pub message_of : MessageType → Frame → Message
message_of t f = record {
  type = t;
  sequence = f.sequence;
  capture_time_us = f.capture_time_us;
  device_time_us = f.device_time_us;
  flags = sent_flags (code t) f;
  contacts = take (sent_count (code t) f) f.contacts;
}

-- The encoder sends the frame, and the receiver takes its contacts.
pub record IsReceivable (t : MessageType) (f : Frame) : Type 0 where
  pub sendable : IsSendable (code t) f
  pub contacts : All ValidContact (take (sent_count (code t) f) f.contacts)
  pub fresh : FreshIds [] (take (sent_count (code t) f) f.contacts)

code-lt : (t : MessageType) → code t < 4
code-lt hello = omega arith
code-lt frame = omega arith
code-lt reset = omega arith

code-control :
    (t : MessageType) (f : Frame)
    → is_control t ≡ true
    → (sent_count (code t) f ≡ 0) × (sent_flags (code t) f ≡ 0)
code-control t f h = ground arith

module _ {t : MessageType} {f : Frame} (v : IsReceivable t f) where
  sent_header-Reads :
      (r : List ℕ)
      → Reads
          (sent_header (code t) f ++ r)
          (code t)
          (sent_count (code t) f * contact_size)
          (sent_count (code t) f)
          (sent_flags (code t) f)
          f
  sent_header-Reads r =
      let small = sent_count-le (code t) f v.sendable.count in
      put_header-Reads (code t) (sent_count (code t) f * contact_size) (sent_count (code t) f)
        (sent_flags (code t) f) f r (omega (arith, code-lt t)) (omega (arith, small))
        (omega (arith, small)) (omega (arith, v.sendable.flags)) v.sendable.frame

  sent_header-magic : wrong_magic (sent_header (code t) f) ≡ false
  unfolding put_header
  sent_header-magic = refl

  sent_header-ValidHeader : ValidHeader (sent_header (code t) f) (sent_size (code t) f)
  sent_header-ValidHeader =
      let r =
        subst
          (λ s.
            Reads s (code t) (sent_count (code t) f * contact_size) (sent_count (code t) f)
              (sent_flags (code t) f) f)
          (append-nil (sent_header (code t) f)) (sent_header-Reads []) in
      record {
        type = t;
        magic = sent_header-magic;
        version = read_u16-eq _ ∙ r.version;
        type_at = read_u16-eq _ ∙ r.type_at;
        flags =
            omega
              (arith, read_u16-eq (drop 18 (sent_header (code t) f)), r.flags_at, v.sendable.flags);
        count = omega (
          arith,
          read_u16-eq (drop 16 (sent_header (code t) f)),
          r.count_at,
          sent_count-le (code t) f v.sendable.count,
        );
        payload = omega (
          arith,
          read_u16-eq (drop 16 (sent_header (code t) f)),
          read_u32-eq (drop 8 (sent_header (code t) f)),
          r.count_at,
          r.payload_at,
        );
        size = omega (arith, read_u16-eq (drop 16 (sent_header (code t) f)), r.count_at);
        control = λ k. (
          read_u16-eq _ ∙ r.count_at ∙ (code-control t f k).0,
          read_u16-eq _ ∙ r.flags_at ∙ (code-control t f k).1,
        );
      }

  sent_bytes-split :
      sent_bytes (code t) f
      ≡ sent_header (code t) f ++ (put_contacts (sent_count (code t) f) f.contacts ++ [])
  unfolding message_bytes
  sent_bytes-split = rw append-nil

  sent_bytes-contacts :
      read_contacts (sent_count (code t) f) 0 (sent_bytes (code t) f) []
      ≡ ok (take (sent_count (code t) f) f.contacts)
  sent_bytes-contacts = rw sent_bytes-split (
      read_contacts-put_contacts (sent_count (code t) f) 0 (sent_header (code t) f) f.contacts [] []
        (length-put_header (code t) _ _ _ f)
        (omega (arith, v.sendable.frame.storage, sent_count-le (code t) f v.sendable.count))
        v.sendable.frame.contacts v.contacts v.fresh)

  sent_bytes-Reads :
      Reads
        (sent_bytes (code t) f)
        (code t)
        (sent_count (code t) f * contact_size)
        (sent_count (code t) f)
        (sent_flags (code t) f)
        f
  sent_bytes-Reads =
      rw sent_bytes-split
        (sent_header-Reads (put_contacts (sent_count (code t) f) f.contacts ++ []))

  pub header_copy : take k_header_size (sent_bytes (code t) f) ≡ sent_header (code t) f
  header_copy = rw sent_bytes-split (
      take-append (sent_header (code t) f) (put_contacts (sent_count (code t) f) f.contacts ++ [])
        k_header_size (sym (length-put_header (code t) _ _ _ f)))

  pub validate_header-sent : validate_header (sent_header (code t) f) ≡ ok (sent_size (code t) f)
  validate_header-sent =
      ValidHeader-validate_header (sent_header (code t) f) (sent_size (code t) f)
        sent_header-ValidHeader

  -- The bytes that the Mac writes for a frame are decoded by the receiver to the message of the same
  -- type, sequence number and times, with the contacts up to the count, and the flags, of a FRAME.
  pub decode_message-sent_bytes : decode_message (sent_bytes (code t) f) ≡ ok (message_of t f)
  unfolding decode_message
  decode_message-sent_bytes =
      simp
        (
          length-sent_bytes v.sendable,
          header_copy,
          validate_header-sent,
          read_u16-eq,
          read_u32-eq,
          read_u64-eq,
          sent_bytes-Reads.type_at,
          sent_bytes-Reads.count_at,
          sent_bytes-Reads.flags_at,
          sent_bytes-Reads.sequence,
          sent_bytes-Reads.capture_time,
          sent_bytes-Reads.device_time,
          code-read_type,
          sent_bytes-contacts,
        )
        (ground arith)
