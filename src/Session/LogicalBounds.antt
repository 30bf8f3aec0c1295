-- ===== src/Session/LogicalBounds.antt =====
-- windows/receiver/TouchSession.cpp: the range of `ToLogical` and `ToLogicalY`.
use native.Mathlib.Nat.{
  pow-suc, one-le-pow, div-add-mod', div-le_of_le-mul, lt_of_mul-lt-mul_right, mul-le-mul_right,
}
use touchpad.Base.{ℕ, zero, suc, ◌+◌, ◌-◌, ◌*◌, ◌/◌, ◌%◌, ◌^◌, ◌≤◌, ◌<◌, ◌≡◌, ◌∙◌, ap, arith}
use touchpad.Ioctl.{coordinate_logical_max}
use touchpad.Session.Logical.{
  Float, one_units, float_of, excess_bits, round_quotient, round_to_float, clamp_unit, lround,
  logical, one_minus, to_logical, to_logical_y,
}

pow-add : (a b : ℕ) → 2 ^ (a + b) ≡ 2 ^ a * 2 ^ b
pow-add zero b = omega (arith, ap (λ (k : ℕ). 2 ^ k) (let e : 0 + b ≡ b = omega arith in e))
pow-add (suc a) b = omega (
  arith,
  ap (λ (k : ℕ). 2 ^ k) (let e : suc a + b ≡ suc (a + b) = omega arith in e),
  pow-suc 2 (a + b),
  pow-suc 2 a,
  ap (λ (t : ℕ). t * 2 ^ b) (pow-suc 2 a),
  pow-add a b,
)

-- A number of 24 + k bits loses at most k.
excess_bits-le : (k fuel n : ℕ) → n < 2 ^ (24 + k) → excess_bits fuel n ≤ k
unfolding excess_bits
excess_bits-le k zero n h = omega arith
excess_bits-le zero (suc fuel) n h = ground arith
excess_bits-le (suc k) (suc fuel) n h = ground (
  arith,
  pow-suc 2 (24 + k),
  ap (λ (i : ℕ). 2 ^ i) (let e : 24 + suc k ≡ suc (24 + k) = omega arith in e),
  excess_bits-le k fuel (n / 2),
)

-- Rounding does not pass a bound that the lost bits divide.
round_quotient-le : (n p m : ℕ) → 0 < p → n ≤ m * p → round_quotient n p ≤ m
unfolding round_quotient
round_quotient-le n p m h b = ground (arith, below, strict)
  where
    below : n / p ≤ m
    below = div-le_of_le-mul p (omega arith)

    strict : 0 < n % p → n / p < m
    strict k = lt_of_mul-lt-mul_right p (omega (arith, div-add-mod' n p))

-- 2 ^ k splits off a smaller power.
pow_split : (s k : ℕ) → s ≤ k → 2 ^ k ≡ 2 ^ (k - s) * 2 ^ s
pow_split s k h =
    ap (λ (i : ℕ). 2 ^ i) (let e : k ≡ k - s + s = omega arith in e) ∙ pow-add (k - s) s

-- A bound of at most 24 significant bits is not passed.
round_to_float-le : (m n : ℕ) → m < 2 ^ 24 → n ≤ m * 2 ^ 149 → round_to_float n ≤ m * 2 ^ 149
unfolding round_to_float
round_to_float-le m n hm h =
    let s : ℕ = excess_bits 300 n in
    let few : s ≤ 149 = excess_bits-le 149 300 n (omega arith) in
    let split : m * 2 ^ 149 ≡ m * 2 ^ (149 - s) * 2 ^ s =
      omega (arith, ap (λ (t : ℕ). m * t) (pow_split s 149 few)) in
    let q : round_quotient n (2 ^ s) ≤ m * 2 ^ (149 - s) =
      round_quotient-le n (2 ^ s) (m * 2 ^ (149 - s)) (one-le-pow s 2 (omega arith))
        (omega (arith, split)) in
    omega (arith, split, mul-le-mul_right (2 ^ s) q)

clamp_unit-le : (v : Float) → clamp_unit v ≤ one_units
unfolding clamp_unit
clamp_unit-le v = ground arith

pub logical-le : (v : Float) → logical v ≤ coordinate_logical_max
unfolding logical lround
logical-le v = ground (
  arith,
  round_to_float-le coordinate_logical_max (clamp_unit v * coordinate_logical_max) (omega arith)
      (omega (arith, clamp_unit-le v)),
)

-- Whatever the float, both coordinates are at most 32767.
pub to_logical-le :
    (bits : ℕ)
    → (to_logical bits ≤ coordinate_logical_max) × (to_logical_y bits ≤ coordinate_logical_max)
unfolding to_logical to_logical_y
to_logical-le bits = (logical-le (float_of bits), logical-le (one_minus (float_of bits)))
