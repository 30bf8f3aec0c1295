-- ===== src/Receiver/Drained.antt =====
-- windows/receiver/main.cpp: the loop on decoded messages leaves none.
use touchpad.Base.{
  ℕ, zero, suc, ◌+◌, ◌-◌, ◌≤◌, ◌≡◌, ◌∙◌, ap, refl, ◌⊎◌, inl, inr, Bool, true, false, arith, List,
  [], ◌∷◌, none, some, length, eq-nil_of_length, Bool-cases,
}
use touchpad.Ioctl.{IoctlFrame}
use touchpad.Mtp1.Types.{Message, Result, ok, err, no_decoded_message}
use touchpad.Mtp1.Stream.{StreamDecoder, has_message, pop_message}
use touchpad.Session.Process.{Outcome, process}
use touchpad.Receiver.Serve.{
  Connection, submit, submit_if, submit_outcome, process_popped, process_messages,
}

abbrev waiting : Connection → ℕ
waiting c = length c.decoder.messages

pop_message-shorter :
    (d : StreamDecoder) → length (pop_message d).1.messages ≡ length d.messages - 1
unfolding pop_message
pop_message-shorter d = shorter d.messages refl
  where
    shorter :
        (ms : List Message)
        → d.messages ≡ ms
        → length
            (elim ms as (λ l. Result Message × StreamDecoder) [
              | [] ↦ (err no_decoded_message, d)
              | m ∷ ms' ↦ (ok m, record d { messages = ms' })
            ]).1.messages
          ≡ length ms - 1
    shorter [] e = ap length e
    shorter (m ∷ ms) e = omega arith

has_message-none : (d : StreamDecoder) → has_message d ≡ false → length d.messages ≡ 0
unfolding has_message
has_message-none d h = none_left d.messages h
  where
    none_left :
        (ms : List Message)
        → (elim ms as (λ l. Bool) [ [] ↦ false | m ∷ ms' ↦ true ]) ≡ false
        → length ms ≡ 0
    none_left [] e = refl
    none_left (m ∷ ms) e = absurd (cc)

module _ (device_io_control : IoctlFrame → Bool) where
  submit_outcome-decoder :
      (r : Outcome) (c : Connection) → (submit_outcome device_io_control r c).1.decoder ≡ c.decoder
  unfolding submit_outcome submit_if submit
  submit_outcome-decoder (ok none, s) c = refl
  submit_outcome-decoder (ok (some f), s) c = refl
  submit_outcome-decoder (err e, s) c = refl

  process_popped-decoder :
      (now : ℕ) (r : Result Message × StreamDecoder) (c : Connection)
      → (process_popped device_io_control now r c).1.decoder ≡ r.1
  unfolding process_popped
  process_popped-decoder now (ok m, d) c =
      submit_outcome-decoder (process now m c.session) (record c { decoder = d })
  process_popped-decoder now (err e, d) c = refl

  -- As many rounds as there are messages are enough: the loop is left by an exception, or it has
  -- processed every decoded message.
  pub process_messages-empties :
      (n i : ℕ) (clock : ℕ → ℕ) (c : Connection)
      → length c.decoder.messages ≤ n
      → ((process_messages device_io_control n i clock c).0 ≡ false)
        ⊎ ((process_messages device_io_control n i clock c).1.decoder.messages ≡ [])
  unfolding process_messages
  process_messages-empties zero i clock c h =
      inr (eq-nil_of_length c.decoder.messages (omega arith))
  process_messages-empties (suc n) i clock c h = elim (Bool-cases (has_message c.decoder)) [
    | inr empty ↦
        rw empty (inr (eq-nil_of_length c.decoder.messages (has_message-none c.decoder empty)))
    | inl some_left ↦
        let r = process_popped device_io_control (clock i) (pop_message c.decoder) c in
        let shorter : length r.1.decoder.messages ≡ length c.decoder.messages - 1 =
          ap (λ (d : StreamDecoder). length d.messages)
            (process_popped-decoder (clock i) (pop_message c.decoder) c)
          ∙ pop_message-shorter c.decoder in
        let rest = process_messages-empties n (i + 1) clock r.1 (omega (arith, shorter, h)) in
        elim (Bool-cases r.0) [
          | inl goes_on ↦ rw (some_left, goes_on) rest
          | inr stops ↦ rw (some_left, stops) (inl refl)
        ]
  ]
