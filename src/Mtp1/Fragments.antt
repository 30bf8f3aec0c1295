-- ===== src/Mtp1/Fragments.antt =====
-- windows/receiver/Mtp1.cpp: `StreamDecoder` does not see where the stream was cut.
use mathlib.Core.List.{append_assoc}
use touchpad.Base.{
  ℕ, zero, suc, ◌+◌, ◌*◌, ◌≤◌, ◌<◌, ◌≡◌, ◌⊎◌, ◌∙◌, sym, ap, refl, inl, inr, List, [], ◌∷◌, ◌++◌,
  drop, length, length-append, length-drop, drop-append_le, arith, le→ltb,
}
use touchpad.Mtp1.Types.{Message, Error, Result, ok, err, k_max_message_size}
use touchpad.Mtp1.Round.{Result-cases, Round-cases, round_bounds, round_more}
use touchpad.Mtp1.Stream.{
  StreamDecoder, wait, throws, takes, round, parse_loop, parse_available, append,
}

-- The object after a round that takes `m` and `n` bytes.
abbrev pub taken : Message → ℕ → StreamDecoder → StreamDecoder
taken m n d = record { buffer = drop n d.buffer; messages = d.messages ++ (m ∷ []) }

-- The first round of the loop, by what it does.
module _ (fuel : ℕ) (d : StreamDecoder) where
  parse_loop-wait : round d.buffer ≡ wait → parse_loop (suc fuel) d ≡ (ok tt, d)
  unfolding parse_loop
  parse_loop-wait e = rw (e, parse_loop)

  parse_loop-throws : (x : Error) → round d.buffer ≡ throws x → parse_loop (suc fuel) d ≡ (err x, d)
  unfolding parse_loop
  parse_loop-throws x e = rw (e, parse_loop)

  parse_loop-takes :
      (m : Message) (n : ℕ)
      → round d.buffer ≡ takes m n
      → parse_loop (suc fuel) d ≡ parse_loop fuel (taken m n d)
  unfolding parse_loop
  parse_loop-takes m n e = rw (e, parse_loop)

taken_shorter :
    (d : StreamDecoder) (m : Message) (n : ℕ)
    → round d.buffer ≡ takes m n
    → length (taken m n d).buffer < length d.buffer
taken_shorter d m n e = omega (arith, length-drop n d.buffer, round_bounds d.buffer m n e)

-- Fuel above the number of bytes does not matter: the loop ends by itself.
parse_loop_fuel :
    (f g : ℕ) (d : StreamDecoder)
    → length d.buffer < f
    → length d.buffer < g
    → parse_loop f d ≡ parse_loop g d
parse_loop_fuel zero g d hf hg = elim hf [ ]
parse_loop_fuel (suc f) zero d hf hg = elim hg [ ]
parse_loop_fuel (suc f) (suc g) d hf hg = elim (Round-cases (round d.buffer)) [
  | inl e ↦ parse_loop-wait f d e ∙ sym (parse_loop-wait g d e)
  | inr (inl (x, e)) ↦ parse_loop-throws f d x e ∙ sym (parse_loop-throws g d x e)
  | inr (inr (m, n, e)) ↦
      let shorter = taken_shorter d m n e in
      parse_loop-takes f d m n e
      ∙ parse_loop_fuel f g (taken m n d) (omega (arith, shorter)) (omega (arith, shorter))
      ∙ sym (parse_loop-takes g d m n e)
]

-- `ParseAvailable`, one round at a time, with no fuel in sight.
module _ (d : StreamDecoder) where
  pub parse_available-wait : round d.buffer ≡ wait → parse_available d ≡ (ok tt, d)
  unfolding parse_available
  parse_available-wait e = parse_loop-wait (length d.buffer) d e

  pub parse_available-throws :
      (x : Error) → round d.buffer ≡ throws x → parse_available d ≡ (err x, d)
  unfolding parse_available
  parse_available-throws x e = parse_loop-throws (length d.buffer) d x e

  pub parse_available-takes :
      (m : Message) (n : ℕ)
      → round d.buffer ≡ takes m n
      → parse_available d ≡ parse_available (taken m n d)
  unfolding parse_available
  parse_available-takes m n e =
      parse_loop-takes (length d.buffer) d m n e
      ∙ parse_loop_fuel (length d.buffer) (suc (length (taken m n d).buffer)) (taken m n d)
          (taken_shorter d m n e) (omega arith)

-- More bytes arrive in the buffer.
abbrev pub more : List ℕ → StreamDecoder → StreamDecoder
more t d = record d { buffer = d.buffer ++ t }

-- Parsing what is there and going on with the bytes `t`; what has thrown stays thrown.
abbrev pub resume : List ℕ → Result (Unit {0}) × StreamDecoder → Result (Unit {0}) × StreamDecoder
resume t (ok u, d) = parse_available (more t d)
resume t (err x, d) = (err x, more t d)

round_more-throws : (b t : List ℕ) (x : Error) → round b ≡ throws x → round (b ++ t) ≡ throws x
round_more-throws b t x e = elim (round_more b t) [ inl w ↦ absurd (cc) | inr same ↦ same ∙ e ]

pub round_more-takes :
    (b t : List ℕ) (m : Message) (n : ℕ) → round b ≡ takes m n → round (b ++ t) ≡ takes m n
round_more-takes b t m n e = elim (round_more b t) [ inl w ↦ absurd (cc) | inr same ↦ same ∙ e ]

parse_resume :
    (f : ℕ) (t : List ℕ) (d : StreamDecoder)
    → length d.buffer < f
    → parse_available (more t d) ≡ resume t (parse_available d)
parse_resume zero t d h = elim h [ ]
parse_resume (suc f) t d h = elim (Round-cases (round d.buffer)) [
  | inl e ↦ sym (ap (resume t) (parse_available-wait d e))
  | inr (inl (x, e)) ↦
      parse_available-throws (more t d) x (round_more-throws d.buffer t x e)
      ∙ sym (ap (resume t) (parse_available-throws d x e))
  | inr (inr (m, n, e)) ↦
      parse_available-takes (more t d) m n (round_more-takes d.buffer t m n e)
      ∙ ap (λ b. parse_available (record { buffer = b; messages = d.messages ++ (m ∷ []) }))
          (drop-append_le n d.buffer t (omega (arith, round_bounds d.buffer m n e)))
      ∙ parse_resume f t (taken m n d) (omega (arith, taken_shorter d m n e))
      ∙ sym (ap (resume t) (parse_available-takes d m n e))
]

pub parse_available-more :
    (t : List ℕ) (d : StreamDecoder) → parse_available (more t d) ≡ resume t (parse_available d)
parse_available-more t d = parse_resume (suc (length d.buffer)) t d (omega arith)

-- A call that returns leaves a buffer on which the loop waits, and none grows.
pub record Drained (d : StreamDecoder) (r : Result (Unit {0}) × StreamDecoder) : Type 0 where
  pub shorter : length r.1.buffer ≤ length d.buffer
  pub waits : r.0 ≡ ok tt → round r.1.buffer ≡ wait

Drained-loop : (f : ℕ) (d : StreamDecoder) → length d.buffer < f → Drained d (parse_available d)
Drained-loop zero d h = elim h [ ]
Drained-loop (suc f) d h = elim (Round-cases (round d.buffer)) [
  | inl e ↦ rw (parse_available-wait d e) (record { shorter = omega arith; waits = λ _. e })
  | inr (inl (x, e)) ↦
      rw (parse_available-throws d x e) (record { shorter = omega arith; waits = λ k. cc })
  | inr (inr (m, n, e)) ↦
      let rest = Drained-loop f (taken m n d) (omega (arith, taken_shorter d m n e)) in
      rw (parse_available-takes d m n e) (record {
        shorter = omega (arith, rest.shorter, taken_shorter d m n e);
        waits = rest.waits;
      })
]

pub parse_available-Drained : (d : StreamDecoder) → Drained d (parse_available d)
parse_available-Drained d = Drained-loop (suc (length d.buffer)) d (omega arith)

-- `ParseAvailable` always comes to an end by itself: it throws, or it returns with a buffer that holds
-- no more than it did, and in which no message is complete, so that the loop waits for more bytes.
pub parse_available_stops :
    (d : StreamDecoder)
    → (length (parse_available d).1.buffer ≤ length d.buffer)
      × ((((parse_available d).0 ≡ ok tt) × (round (parse_available d).1.buffer ≡ wait))
          ⊎ ((e : Error) × ((parse_available d).0 ≡ err e)))
parse_available_stops d =
    let drained = parse_available-Drained d in
    (
      drained.shorter,
      elim (Result-cases (parse_available d).0) [
        | inl (u, e) ↦ inl (e, drained.waits e)
        | inr (x, e) ↦ inr (x, e)
      ],
    )

pub append-parse :
    (a : List ℕ) (d : StreamDecoder)
    → length d.buffer + length a ≤ k_max_message_size * 2
    → append a d ≡ parse_available (more a d)
unfolding append
append-parse a d h = rw (le→ltb (k_max_message_size * 2) (length d.buffer + length a) h)

-- `Append` of the bytes `b` after an `Append` that gave `r`; what has thrown stays thrown.
abbrev pub then_append :
    List ℕ → Result (Unit {0}) × StreamDecoder → Result (Unit {0}) × StreamDecoder
then_append b (ok u, d) = append b d
then_append b (err x, d) = (err x, more b d)

after_append :
    (b : List ℕ) (r : Result (Unit {0}) × StreamDecoder)
    → length r.1.buffer + length b ≤ k_max_message_size * 2
    → resume b r ≡ then_append b r
after_append b (ok u, d) h = sym (append-parse b d h)
after_append b (err x, d) h = refl

-- Within the buffer limit it does not matter how the bytes are cut: `Append` of `a ++ b` does what
-- `Append` of `a` and then of `b` does, with the same messages and the same exception.
pub append-append :
    (a b : List ℕ) (d : StreamDecoder)
    → length d.buffer + (length a + length b) ≤ k_max_message_size * 2
    → append (a ++ b) d ≡ then_append b (append a d)
append-append a b d h =
    append-parse (a ++ b) d (omega (arith, length-append a b))
    ∙ ap (λ l. parse_available (record d { buffer = l })) (sym (append_assoc d.buffer a b))
    ∙ parse_available-more b (more a d)
    ∙ after_append b (parse_available (more a d))
        (omega (arith, (parse_available-Drained (more a d)).shorter, length-append d.buffer a))
    ∙ ap (then_append b) (sym (append-parse a d (omega arith)))
