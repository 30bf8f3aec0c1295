-- ===== src/Mtp1/Round.antt =====
-- windows/receiver/Mtp1.cpp: one round of the loop of `ParseAvailable`.
use touchpad.Base.{
  ℕ, ◌+◌, ◌≤◌, ◌<◌, ◌≡◌, refl, ◌⊎◌, inl, inr, List, ◌++◌, ltb, take, length, length-append,
  take-append_le, arith, Bool-cases,
}
use touchpad.Mtp1.Types.{Message, Error, Result, ok, err, k_header_size, k_max_message_size}
use touchpad.Mtp1.Header.{validate_header}
use touchpad.Mtp1.Valid.{validate_header_bounds}
use touchpad.Mtp1.Stream.{Round, wait, throws, takes, round}

pub Round-cases :
    (r : Round)
    → (r ≡ wait) ⊎ ((e : Error) × (r ≡ throws e)) ⊎ ((m : Message) × (n : ℕ) × (r ≡ takes m n))
Round-cases wait = inl refl
Round-cases (throws e) = inr (inl (e, refl))
Round-cases (takes m n) = inr (inr (m, n, refl))

pub Result-cases {ℓ} :
    {A : Type ℓ} (r : Result A) → ((a : A) × (r ≡ ok a)) ⊎ ((e : Error) × (r ≡ err e))
Result-cases (ok a) = inl (a, refl)
Result-cases (err e) = inr (e, refl)

-- A round that takes a message takes at least a header, and no more than there is.
pub round_bounds :
    (b : List ℕ) (m : Message) (n : ℕ)
    → round b ≡ takes m n
    → (k_header_size ≤ n) × (n ≤ k_max_message_size) × (n ≤ length b)
unfolding round
round_bounds b m n e = elim (Result-cases (validate_header (take k_header_size b))) [
  | inl (k, ev) ↦ ground (arith, ev, validate_header_bounds (take k_header_size b) k ev)
  | inr (x, ev) ↦ ground (arith, ev)
]

-- A buffer on which the loop stops is short of one message.
pub round-wait_short : (b : List ℕ) → round b ≡ wait → length b < k_max_message_size
unfolding round
round-wait_short b e = elim (Result-cases (validate_header (take k_header_size b))) [
  | inl (k, ev) ↦ ground (arith, ev, validate_header_bounds (take k_header_size b) k ev)
  | inr (x, ev) ↦ ground (arith, ev)
]

-- More bytes behind the buffer do not change a round that does not wait for them.
pub round_more : (b t : List ℕ) → (round b ≡ wait) ⊎ (round (b ++ t) ≡ round b)
unfolding round
round_more b t = elim (Bool-cases (ltb (length b) k_header_size)) [
  | inl short ↦ inl (rw short)
  | inr long ↦ past_header (ground arith) (Result-cases (validate_header (take k_header_size b)))
]
  where
    longer : length (b ++ t) ≡ length b + length t
    longer = length-append b t

    past_header :
        k_header_size ≤ length b
        → ((n : ℕ) × (validate_header (take k_header_size b) ≡ ok n))
          ⊎ ((e : Error) × (validate_header (take k_header_size b) ≡ err e))
        → (round b ≡ wait) ⊎ (round (b ++ t) ≡ round b)
    past_header long (inr (x, ev)) =
        inr (ground (arith, ev, longer, take-append_le k_header_size b t long))
    past_header long (inl (n, ev)) = elim (Bool-cases (ltb (length b) n)) [
      | inl short ↦ inl (ground (arith, ev, short))
      | inr whole ↦
          inr (
            ground (arith, ev, longer, take-append_le k_header_size b t long, take-append_le n b t))
    ]
