-- ===== src/Wire/Bytes.antt =====
-- protocol/TouchFrame.c: the big-endian stores and loads. A store at a pointer is the bytes that it
-- writes, in order; a load takes the bytes from its pointer on.
use touchpad.Base.{
  ℕ, ◌+◌, ◌*◌, ◌/◌, ◌%◌, ◌^◌, ◌<◌, ◌≡◌, refl, ap, ap₂, ◌∙◌, List, [], ◌∷◌, ◌++◌, arith, bit_or,
  or_shifted, get_or, drop,
}
use touchpad.Wire.Types.{IsByte}

unfoldable pub put_u16 : ℕ → List ℕ
put_u16 value = (value / 2 ^ 8 % 2 ^ 8) ∷ (value % 2 ^ 8) ∷ []

unfoldable pub put_u32 : ℕ → List ℕ
put_u32 value =
    (value / 2 ^ 24 % 2 ^ 8)
    ∷ (value / 2 ^ 16 % 2 ^ 8)
    ∷ (value / 2 ^ 8 % 2 ^ 8)
    ∷ (value % 2 ^ 8)
    ∷ []

unfoldable pub put_u64 : ℕ → List ℕ
unfolding put_u32
put_u64 value = put_u32 (value / 2 ^ 32 % 2 ^ 32) ++ put_u32 (value % 2 ^ 32)

-- `memcpy` between a float and its bits keeps the pattern.
unfoldable pub put_f32 : ℕ → List ℕ
unfolding put_u32
put_f32 value = let bits = value in put_u32 bits

unfoldable pub get_u16 : List ℕ → ℕ
get_u16 input = bit_or (get_or input 0 0 * 2 ^ 8) (get_or input 1 0) % 2 ^ 16

unfoldable pub get_u32 : List ℕ → ℕ
get_u32 input =
    bit_or
      (bit_or (bit_or (get_or input 0 0 * 2 ^ 24 % 2 ^ 32) (get_or input 1 0 * 2 ^ 16 % 2 ^ 32))
        (get_or input 2 0 * 2 ^ 8 % 2 ^ 32))
      (get_or input 3 0)

unfoldable pub get_u64 : List ℕ → ℕ
get_u64 input = bit_or (get_u32 input * 2 ^ 32 % 2 ^ 64) (get_u32 (drop 4 input))

unfoldable pub get_f32 : List ℕ → ℕ
get_f32 input = let bits = get_u32 input in bits

-- The loads as sums, on bytes.
pub get_u16-sum : (a b : ℕ) (r : List ℕ) → IsByte a → IsByte b → get_u16 (a ∷ b ∷ r) ≡ a * 2 ^ 8 + b
unfolding get_u16
get_u16-sum a b r ha hb = omega (arith, or_shifted 8 a b hb)

pub get_u32-sum :
    (a b c d : ℕ) (r : List ℕ)
    → IsByte a
    → IsByte b
    → IsByte c
    → IsByte d
    → get_u32 (a ∷ b ∷ c ∷ d ∷ r) ≡ a * 2 ^ 24 + b * 2 ^ 16 + c * 2 ^ 8 + d
unfolding get_u32
get_u32-sum a b c d r ha hb hc hd =
    ap₂ bit_or (ap₂ bit_or (ap₂ bit_or fits_a fits_b ∙ first) fits_c ∙ second) refl ∙ third
  where
    fits_a : a * 2 ^ 24 % 2 ^ 32 ≡ a * 2 ^ 24
    fits_a = omega arith

    fits_b : b * 2 ^ 16 % 2 ^ 32 ≡ b * 2 ^ 16
    fits_b = omega arith

    fits_c : c * 2 ^ 8 % 2 ^ 32 ≡ c * 2 ^ 8
    fits_c = omega arith

    first : bit_or (a * 2 ^ 24) (b * 2 ^ 16) ≡ (a * 2 ^ 8 + b) * 2 ^ 16
    first = omega (arith, or_shifted 24 a (b * 2 ^ 16) (omega arith))

    second : bit_or ((a * 2 ^ 8 + b) * 2 ^ 16) (c * 2 ^ 8) ≡ ((a * 2 ^ 8 + b) * 2 ^ 8 + c) * 2 ^ 8
    second = omega (arith, or_shifted 16 (a * 2 ^ 8 + b) (c * 2 ^ 8) (omega arith))

    third :
        bit_or (((a * 2 ^ 8 + b) * 2 ^ 8 + c) * 2 ^ 8) d ≡ a * 2 ^ 24 + b * 2 ^ 16 + c * 2 ^ 8 + d
    third = omega (arith, or_shifted 8 ((a * 2 ^ 8 + b) * 2 ^ 8 + c) d hd)

-- Each load undoes its store, whatever follows.
pub get_u16-put_u16 : (v : ℕ) (r : List ℕ) → v < 2 ^ 16 → get_u16 (put_u16 v ++ r) ≡ v
unfolding put_u16
get_u16-put_u16 v r h =
    get_u16-sum (v / 2 ^ 8 % 2 ^ 8) (v % 2 ^ 8) r (omega arith) (omega arith) ∙ omega arith

pub get_u32-put_u32 : (v : ℕ) (r : List ℕ) → v < 2 ^ 32 → get_u32 (put_u32 v ++ r) ≡ v
unfolding put_u32
get_u32-put_u32 v r h =
    get_u32-sum (v / 2 ^ 24 % 2 ^ 8) (v / 2 ^ 16 % 2 ^ 8) (v / 2 ^ 8 % 2 ^ 8) (v % 2 ^ 8) r
      (omega arith) (omega arith) (omega arith) (omega arith)
    ∙ omega arith

-- The two halves of a 64-bit value.
pub join_halves :
    (hi lo : ℕ) → hi < 2 ^ 32 → lo < 2 ^ 32 → bit_or (hi * 2 ^ 32 % 2 ^ 64) lo ≡ hi * 2 ^ 32 + lo
join_halves hi lo hh hl = ap (λ t. bit_or t lo) (omega arith) ∙ or_shifted 32 hi lo hl

pub get_u64-put_u64 : (v : ℕ) (r : List ℕ) → v < 2 ^ 64 → get_u64 (put_u64 v ++ r) ≡ v
unfolding get_u64 put_u64
get_u64-put_u64 v r h =
    ap₂ (λ hi lo. bit_or (hi * 2 ^ 32 % 2 ^ 64) lo)
      (get_u32-put_u32 (v / 2 ^ 32 % 2 ^ 32) (put_u32 (v % 2 ^ 32) ++ r) (omega arith))
      (get_u32-put_u32 (v % 2 ^ 32) r (omega arith))
    ∙ join_halves (v / 2 ^ 32 % 2 ^ 32) (v % 2 ^ 32) (omega arith) (omega arith)
    ∙ omega arith

pub get_f32-put_f32 : (v : ℕ) (r : List ℕ) → v < 2 ^ 32 → get_f32 (put_f32 v ++ r) ≡ v
unfolding get_f32 put_f32
get_f32-put_f32 v r h = get_u32-put_u32 v r h
