-- ===== src/Base/Bits.antt =====
-- `|` of disjoint fields and `&` with a mask, as arithmetic. Each law goes digit by digit.
use Prim.Native.Nat.{
  ℕ, zero, suc, ◌+◌, ◌-◌, ◌*◌, ◌/◌, ◌%◌, ◌^◌, ◌≤◌, ◌<◌, min, max, bit_and, bit_or, digits,
  bit_and-bitwise, bit_or-bitwise,
}
use mathlib.Core.Path.{◌≡◌, refl, ap}
use mathlib.Core.Bool.{Bool, true, ◌&&◌}
use touchpad.Base.Tests.{◌==◌, ==_iff}
use native.Mathlib.Omega.{arith}
use native.Mathlib.Nat.{pow-suc, one-le-pow}

-- A test on the numbers below a bound, by evaluation.
checks : (ℕ → Bool) → ℕ → Bool
checks test zero = true
checks test (suc bound) = let earlier = checks test bound in test bound && earlier

checks-lt : (test : ℕ → Bool) (bound v : ℕ) → v < bound → checks test bound ≡ true → test v ≡ true
unfolding checks
checks-lt test zero v below passed = absurd (omega arith)
checks-lt test (suc bound) v below passed = ground (arith, checks-lt test bound v)

-- Both operations are `digits` with fuel; more of it than the first number needs does not matter.
module _ (keep : ℕ → ℕ) (op : ℕ → ℕ → ℕ) where
  enough_digits :
      (v w fuel more : ℕ) → v ≤ more → v ≤ fuel → digits keep op more v w ≡ digits keep op fuel v w
  enough_digits zero w (suc fuel) (suc more) h k = refl
  enough_digits zero w (suc fuel) zero h k = refl
  enough_digits zero w zero (suc more) h k = refl
  enough_digits zero w zero zero h k = refl
  enough_digits (suc v) w fuel zero h k = absurd (omega arith)
  enough_digits (suc v) w zero (suc more) h k = absurd (omega arith)
  enough_digits (suc v) w (suc fuel) (suc more) h k =
      let halves = enough_digits (suc v / 2) (w / 2) fuel more (omega arith) (omega arith) in
      ap (λ t. t * 2 + op (suc v % 2) (w % 2)) halves

-- One equation for the lowest digit.
pub bit_or_step : (v w : ℕ) → bit_or v w ≡ bit_or (v / 2) (w / 2) * 2 + max (v % 2) (w % 2)
bit_or_step zero w = omega (arith, bit_or-bitwise 0 (w / 2), bit_or-bitwise 0 w)
bit_or_step (suc v) w =
    let halves =
      enough_digits (λ y. y) max (suc v / 2) (w / 2) (suc v / 2) v (omega arith) (omega arith) in
    omega (arith, halves, bit_or-bitwise (suc v / 2) (w / 2), bit_or-bitwise (suc v) w)

pub bit_and_step : (v w : ℕ) → bit_and v w ≡ bit_and (v / 2) (w / 2) * 2 + min (v % 2) (w % 2)
bit_and_step zero w = omega (arith, bit_and-bitwise 0 (w / 2), bit_and-bitwise 0 w)
bit_and_step (suc v) w =
    let halves =
      enough_digits (λ y. 0) min (suc v / 2) (w / 2) (suc v / 2) v (omega arith) (omega arith) in
    omega (arith, halves, bit_and-bitwise (suc v / 2) (w / 2), bit_and-bitwise (suc v) w)

-- With a zero, by a recursion on any number that bounds the other argument.
or_zero_below : (a bound : ℕ) → a ≤ bound → bit_or a 0 ≡ a
or_zero_below zero bound h = refl
or_zero_below (suc a) zero h = absurd (omega arith)
or_zero_below (suc a) (suc bound) h =
    let half = or_zero_below (suc a / 2) bound (omega arith) in
    omega (arith, half, bit_or_step (suc a) 0)

and_zero_below : (a bound : ℕ) → a ≤ bound → bit_and a 0 ≡ 0
and_zero_below zero bound h = refl
and_zero_below (suc a) zero h = absurd (omega arith)
and_zero_below (suc a) (suc bound) h =
    let half = and_zero_below (suc a / 2) bound (omega arith) in
    omega (arith, half, bit_and_step (suc a) 0)

pub bit_and-zero : (a : ℕ) → bit_and a 0 ≡ 0
bit_and-zero a = and_zero_below a a (omega arith)

double_shift : (q k : ℕ) → q * 2 ^ suc k ≡ 2 * (q * 2 ^ k)
double_shift q k = omega (arith, ap (λ (t : ℕ). q * t) (pow-suc 2 k))

-- `(q << k) | r` is a sum when `r` has `k` bits.
pub or_shifted : (k q r : ℕ) → r < 2 ^ k → bit_or (q * 2 ^ k) r ≡ q * 2 ^ k + r
or_shifted zero q r h = ground (arith, or_zero_below q q)
or_shifted (suc k) q r h = ground (
  arith,
  bit_or_step (q * 2 ^ suc k) r,
  double_shift q k,
  pow-suc 2 k,
  or_shifted k q (r / 2) (omega (arith, pow-suc 2 k)),
)

and_mask_fields : (k q r : ℕ) → r < 2 ^ k → bit_and (q * 2 ^ k + r) (2 ^ k - 1) ≡ r
and_mask_fields zero q r h = rw bit_and-zero (omega arith)
and_mask_fields (suc k) q r h = ground (
  arith,
  bit_and_step (q * 2 ^ suc k + r) (2 ^ suc k - 1),
  double_shift q k,
  pow-suc 2 k,
  one-le-pow k 2,
  and_mask_fields k q (r / 2),
)

-- A mask of `k` low ones is the remainder by `2 ^ k`.
pub and_low_mask : (k a : ℕ) → bit_and a (2 ^ k - 1) ≡ a % 2 ^ k
and_low_mask k a = ground (arith, one-le-pow k 2, and_mask_fields k (a / 2 ^ k) (a % 2 ^ k))

-- `flags & ~1` on sixteen bits.
pub and_not_one : (a : ℕ) → a < 2 ^ 16 → bit_and a 0xfffe ≡ a / 2 * 2
and_not_one a h = omega (arith, bit_and_step a 0xfffe, and_low_mask 15 (a / 2))

not_seven_table : checks (λ x. (bit_and x 0xf8 == x / 8 * 8)) 256 ≡ true
unfolding checks
not_seven_table = refl

-- `flags & ~7` on eight bits.
pub and_not_seven : (x : ℕ) → x < 2 ^ 8 → bit_and x 0xf8 ≡ x / 8 * 8
and_not_seven x h = (==_iff _ _).0 (checks-lt _ 256 x h not_seven_table)

-- Bit 1 of eight bits: taken, and cleared.
bit_one_table : checks (λ x. (bit_and x 2 == x / 2 % 2 * 2)) 256 ≡ true
unfolding checks
bit_one_table = refl

pub and_two : (x : ℕ) → x < 2 ^ 8 → bit_and x 2 ≡ x / 2 % 2 * 2
and_two x h = (==_iff _ _).0 (checks-lt _ 256 x h bit_one_table)

not_two_table : checks (λ x. (bit_and x 0xfd == x - x / 2 % 2 * 2)) 256 ≡ true
unfolding checks
not_two_table = refl

pub and_not_two : (x : ℕ) → x < 2 ^ 8 → bit_and x 0xfd ≡ x - x / 2 % 2 * 2
and_not_two x h = (==_iff _ _).0 (checks-lt _ 256 x h not_two_table)

-- Bit 2 of eight bits.
bit_two_table : checks (λ x. (bit_and x 4 == x / 4 % 2 * 4)) 256 ≡ true
unfolding checks
bit_two_table = refl

pub and_four : (x : ℕ) → x < 2 ^ 8 → bit_and x 4 ≡ x / 4 % 2 * 4
and_four x h = (==_iff _ _).0 (checks-lt _ 256 x h bit_two_table)

pub bit_and-one : (a : ℕ) → bit_and a 1 ≡ a % 2
bit_and-one a = and_low_mask 1 a
