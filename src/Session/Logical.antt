-- ===== src/Session/Logical.antt =====
-- windows/receiver/TouchSession.cpp: `ToLogical` and `ToLogicalY`, on IEEE-754 single precision.
-- Every finite float is a whole number of units of 2 ^ -149, with a sign. An exact result in units is
-- rounded to 24 significant bits, ties to even. The decoder lets no NaN and no infinity through.
use touchpad.Base.{
  ℕ, zero, suc, ◌+◌, ◌-◌, ◌*◌, ◌/◌, ◌%◌, ◌^◌, Bool, true, false, ltb, leb, ◌==◌, if◌then◌else◌,
}
use touchpad.Ioctl.{coordinate_logical_max}

pub record Float : Type 0 where
  pub negative : Bool
  pub units : ℕ

-- The float of a finite bit pattern.
unfoldable pub float_of : ℕ → Float
float_of bits =
    let exponent = bits / 2 ^ 23 % 2 ^ 8 in
    let fraction = bits % 2 ^ 23 in
    record {
      negative = bits / 2 ^ 31 % 2 == 1;
      units = if exponent == 0 then fraction else (2 ^ 23 + fraction) * 2 ^ (exponent - 1);
    }

-- 1.0f in units
abbrev pub one_units : ℕ
one_units = 2 ^ 149

-- How many low bits do not fit 24 bits, and a number without them, rounded. The fuel is above the
-- 278 bits of the largest sum of two finite floats.
unfoldable pub excess_bits : ℕ → ℕ → ℕ
excess_bits zero n = 0
excess_bits (suc fuel) n = elim (ltb n (2 ^ 24)) [
  | true ↦ 0
  | false ↦ suc (excess_bits fuel (n / 2))
]

unfoldable pub round_quotient : ℕ → ℕ → ℕ
round_quotient n p =
    let q = n / p in
    let r = n % p in if ltb (2 * r) p then q else if ltb p (2 * r) then q + 1 else q + q % 2

unfoldable pub round_to_float : ℕ → ℕ
round_to_float n = let p = 2 ^ excess_bits 300 n in round_quotient n p * p

-- `std::clamp(value, 0.0f, 1.0f)`, in units
unfoldable pub clamp_unit : Float → ℕ
clamp_unit v = if v.negative then 0 else if ltb one_units v.units then one_units else v.units

-- `std::lround` of a number that is not negative, half away from zero
unfoldable pub lround : ℕ → ℕ
lround n = (n + 2 ^ 148) / 2 ^ 149

unfoldable pub logical : Float → ℕ
logical v = lround (round_to_float (clamp_unit v * coordinate_logical_max)) % 2 ^ 16

-- `1.0f - value`
unfoldable pub one_minus : Float → Float
one_minus v =
    if v.negative
    then record { negative = false; units = round_to_float (one_units + v.units) }
    else if leb v.units one_units
    then record { negative = false; units = round_to_float (one_units - v.units) }
    else record { negative = true; units = round_to_float (v.units - one_units) }

unfoldable pub to_logical : ℕ → ℕ
to_logical value = logical (float_of value)

unfoldable pub to_logical_y : ℕ → ℕ
to_logical_y value = logical (one_minus (float_of value))
