-- ===== src/Wire/Safety.antt =====
-- protocol/TouchFrame.c: what the codec writes, what it reads, and what it lets through.
use touchpad.Base.{
  ℕ, ◌+◌, ◌*◌, ◌%◌, ◌^◌, ◌≤◌, ◌≡◌, ◌≢◌, ◌∙◌, sym, ◌↔◌, ◌⊎◌, inl, inr, refl, ap, bit_and, Option,
  some, List, ltb, ◌!=◌, ◌&&◌, drop, length, length-append, length-drop, drop-append, arith,
  and_not_one, Bool-cases,
}
use touchpad.Wire.Types.{
  Frame, IsFrame, max_contacts, header_size, contact_size, message_hello, message_frame,
  message_reset,
}
use touchpad.Wire.Encode.{write, sent_count, sent_flags, encode_message}
use touchpad.Wire.RoundTrip.{
  IsSendable, sent_size, sent_bytes, encode_message-sent, length-sent_bytes,
}

-- The three outcomes of a call: nothing done, or the message stored.
sent_or_refused :
    (type : ℕ) (f : Frame) (d : List ℕ) (capacity : ℕ)
    → IsFrame f
    → (encode_message type (some f) (some d) capacity ≡ (0, some d))
      ⊎ (IsSendable type f × (sent_size type f ≤ capacity))
unfolding encode_message
sent_or_refused type f d capacity v = elim (Bool-cases (ltb max_contacts f.contact_count)) [
  | inl e ↦ inl (rw e)
  | inr e₁ ↦
      elim (Bool-cases
        (type != message_hello && (type != message_frame && type != message_reset))) [
          | inl e ↦ inl (rw (e₁, e))
          | inr e₂ ↦ elim (Bool-cases (bit_and (sent_flags type f) 0xfffe != 0)) [
            | inl e ↦ inl (rw (e₁, e₂, e))
            | inr e₃ ↦
                elim (Bool-cases
                  (ltb capacity (header_size + sent_count type f * contact_size % 2 ^ 32))) [
                    | inl e ↦ inl (rw (e₁, e₂, e₃, e))
                    | inr e₄ ↦ inr (
                      record {
                        frame = v;
                        at_least = ground arith;
                        at_most = ground arith;
                        count = ground arith;
                        flags = ground (arith, and_not_one (sent_flags type f));
                      },
                      ground arith,
                    )
                  ]
          ]
        ]
]

-- `tp_encode_message` returns 0 and leaves the destination alone, or it returns the size of the
-- message, at most the capacity, and the destination keeps its length and all bytes behind the size.
-- It returns a size exactly if the frame can be sent and its message fits.
pub encode_message_bounds :
    (type : ℕ) (f : Frame) (d : List ℕ) (capacity : ℕ)
    → IsFrame f
    → capacity ≤ length d
    → let n = (encode_message type (some f) (some d) capacity).0 in
      (d' : List ℕ) × (encode_message type (some f) (some d) capacity ≡ (n, some d'))
      × (n ≤ capacity)
      × (length d' ≡ length d)
      × (drop n d' ≡ drop n d)
      × (n ≢ 0 ↔ (IsSendable type f × (sent_size type f ≤ capacity)))
encode_message_bounds type f d capacity v h = elim (sent_or_refused type f d capacity v) [
  | inl refused ↦
      rw refused (
        d,
        refl,
        omega arith,
        refl,
        refl,
        ((λ n. absurd (n refl)), λ s _. sent-ne-refused s refused),
      )
  | inr sent ↦ rw (encode_message-sent d capacity sent.0 sent.1) (
    write (sent_bytes type f) d,
    refl,
    sent.1,
    omega (
      arith,
      length-append (sent_bytes type f) (drop (length (sent_bytes type f)) d),
      length-drop (length (sent_bytes type f)) d,
      length-sent_bytes sent.0,
      sent.1,
    ),
    rw (length-sent_bytes sent.0) (
        drop-append (sent_bytes type f) (drop (sent_size type f) d) (sent_size type f)
          (sym (length-sent_bytes sent.0))),
    ((λ _. sent), λ _. omega arith),
  )
]
  where
    sent-ne-refused :
        IsSendable type f × (sent_size type f ≤ capacity)
        → encode_message type (some f) (some d) capacity ≡ (0, some d)
        → ⊥
    sent-ne-refused s e = absurd (
        omega (
          arith,
          ap (λ (t : ℕ × Option (List ℕ)). t.0) (sym (encode_message-sent d capacity s.0 s.1) ∙ e),
        ))
