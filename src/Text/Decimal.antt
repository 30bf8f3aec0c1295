-- ===== src/Text/Decimal.antt =====
-- `strtol` and `atoi` read what a number is written as.
use touchpad.Base.{
  ℕ, zero, suc, ◌+◌, ◌*◌, ◌/◌, ◌%◌, ◌^◌, ◌≤◌, ◌<◌, ◌≡◌, ◌∙◌, ap, sym, refl, inl, inr, true, false,
  ltb, ◌==◌, if◌then◌else◌, arith, List, [], ◌∷◌, Bool-cases,
}
use touchpad.Text.Numbers.{
  is_space, is_digit, scan_digits, Number, number_of, signed_number, read_number, atoi,
}

-- The decimal digits of a number in front of a text; as many rounds as the number are enough.
unfoldable pub decimal_onto : ℕ → ℕ → List ℕ → List ℕ
decimal_onto zero n text = (48 + n % 10) ∷ text
decimal_onto (suc fuel) n text =
    let more = decimal_onto fuel (n / 10) ((48 + n % 10) ∷ text) in
    if ltb n 10 then (48 + n % 10) ∷ text else more

unfoldable pub decimal : ℕ → List ℕ
unfolding decimal_onto
decimal n = decimal_onto n n []

scan_digits-digit :
    (acc d : ℕ) (text : List ℕ)
    → d < 10
    → scan_digits acc ((48 + d) ∷ text) ≡ scan_digits (acc * 10 + d) text
unfolding scan_digits
scan_digits-digit acc d text h =
    let is : is_digit (48 + d) ≡ true = ground (arith, h) in
    rw is (ap (λ (k : ℕ). scan_digits (acc * 10 + k) text) (omega arith))

scan_digits-decimal_onto :
    (fuel n : ℕ) (text : List ℕ)
    → n ≤ fuel
    → scan_digits 0 (decimal_onto fuel n text) ≡ scan_digits n text
unfolding decimal_onto
scan_digits-decimal_onto zero n text h =
    scan_digits-digit 0 (n % 10) text (omega arith)
    ∙ ap (λ (k : ℕ). scan_digits k text) (omega (arith, h))
scan_digits-decimal_onto (suc fuel) n text h = elim (Bool-cases (ltb n 10)) [
  | inl small ↦ rw small (
      scan_digits-digit 0 (n % 10) text (omega arith)
      ∙ ap (λ (k : ℕ). scan_digits k text) (ground (arith, small)))
  | inr large ↦ rw large (
      scan_digits-decimal_onto fuel (n / 10) ((48 + n % 10) ∷ text) (ground (arith, h, large))
      ∙ scan_digits-digit (n / 10) (n % 10) text (omega arith)
      ∙ ap (λ (k : ℕ). scan_digits k text) (omega arith))
]

-- It begins with a digit.
decimal_onto-cons :
    (fuel n : ℕ) (text : List ℕ)
    → (d : ℕ) × (rest : List ℕ) × (decimal_onto fuel n text ≡ (48 + d) ∷ rest) × (d < 10)
unfolding decimal_onto
decimal_onto-cons zero n text = (n % 10, text, refl, omega arith)
decimal_onto-cons (suc fuel) n text = elim (Bool-cases (ltb n 10)) [
  | inl small ↦ rw small (n % 10, text, refl, omega arith)
  | inr large ↦ rw large (decimal_onto-cons fuel (n / 10) ((48 + n % 10) ∷ text))
]

-- A text that begins with a digit is read from there on.
read_number-digit :
    (d : ℕ) (rest : List ℕ)
    → d < 10
    → let text = (48 + d) ∷ rest in
      read_number text ≡ record {
        negative = false;
        magnitude = (scan_digits 0 text).0;
        rest = (scan_digits 0 text).1;
        found = true;
      }
unfolding read_number signed_number number_of
read_number-digit d rest h =
    let not_space : is_space (48 + d) ≡ false = ground (arith, h) in
    let not_minus : (48 + d == 45) ≡ false = ground (arith, h) in
    let not_plus : (48 + d == 43) ≡ false = ground (arith, h) in
    let is : is_digit (48 + d) ≡ true = ground (arith, h) in
    rw (not_space, not_minus, not_plus, is) refl

abbrev whole_number : ℕ × List ℕ → Number
whole_number p = record { negative = false; magnitude = p.0; rest = p.1; found = true }

pub read_number-decimal :
    (n : ℕ)
    → read_number (decimal n) ≡ record { negative = false; magnitude = n; rest = []; found = true }
unfolding decimal
read_number-decimal n =
    let (d, rest, e, h) = decimal_onto-cons n n [] in
    let scanned : scan_digits 0 ((48 + d) ∷ rest) ≡ (n, []) =
      ap (scan_digits 0) (sym e)
      ∙ scan_digits-decimal_onto n n [] (omega arith)
      ∙ (unfold scan_digits in refl) in
    ap read_number e ∙ read_number-digit d rest h ∙ ap whole_number scanned

pub atoi-decimal : (n : ℕ) → n < 2 ^ 31 → atoi (decimal n) ≡ n
unfolding atoi
atoi-decimal n h = rw (read_number-decimal n) (ground (arith, h))
