-- ===== src/Text/Numbers.antt =====
-- `strcmp`, `atoi` and `strtol` in base ten, as mac/Agent/main.c and mac/Probe/main.c call them.
use touchpad.Base.{
  ℕ, ◌+◌, ◌-◌, ◌*◌, ◌%◌, ◌^◌, Bool, true, false, not, ◌&&◌, ◌||◌, leb, ltb, ◌==◌, if◌then◌else◌,
  List, [], ◌∷◌,
}

-- `strcmp(a, b) == 0`
abbrev pub same_text : List ℕ → List ℕ → Bool
same_text [] [] = true
same_text [] (d ∷ b) = false
same_text (c ∷ a) [] = false
same_text (c ∷ a) (d ∷ b) = c == d && same_text a b

-- `isspace`
abbrev pub is_space : ℕ → Bool
is_space c = c == 32 || leb 9 c && leb c 13

abbrev pub is_digit : ℕ → Bool
is_digit c = leb 48 c && leb c 57

abbrev pub skip_spaces : List ℕ → List ℕ
skip_spaces [] = []
skip_spaces (c ∷ text) = if is_space c then skip_spaces text else c ∷ text

-- The number of the digits in front, behind those that make `n`, and what follows.
unfoldable pub scan_digits : ℕ → List ℕ → ℕ × List ℕ
scan_digits n [] = (n, [])
scan_digits n (c ∷ text) =
    let rest = scan_digits (n * 10 + (c - 48)) text in if is_digit c then rest else (n, c ∷ text)

-- Whether a digit is there.
abbrev pub starts_with_digit : List ℕ → Bool
starts_with_digit [] = false
starts_with_digit (c ∷ text) = is_digit c

-- A number in base ten, and the text behind it; without a digit nothing is read.
pub record Number : Type 0 where
  pub negative : Bool
  pub magnitude : ℕ
  pub rest : List ℕ
  pub found : Bool

unfoldable pub number_of : Bool → List ℕ → List ℕ → Number
unfolding scan_digits
number_of negative text digits =
    if starts_with_digit digits
    then record {
      negative = negative;
      magnitude = (scan_digits 0 digits).0;
      rest = (scan_digits 0 digits).1;
      found = true;
    }
    else record { negative = false; magnitude = 0; rest = text; found = false }

-- Behind the spaces, with a sign if there is one.
unfoldable pub signed_number : List ℕ → List ℕ → Number
unfolding number_of
signed_number text [] = number_of false text []
signed_number text (c ∷ digits) =
    if c == 45
    then number_of true text digits
    else number_of false text (if c == 43 then digits else c ∷ digits)

unfoldable pub read_number : List ℕ → Number
unfolding signed_number
read_number text = signed_number text (skip_spaces text)

-- `errno` of `strtol`, whose `long` has 64 bits.
abbrev pub out_of_range : Number → Bool
out_of_range n = ltb (if n.negative then 2 ^ 63 else 2 ^ 63 - 1) n.magnitude

-- Whether an `int` of a value is from one to a day.
abbrev pub is_duration : Number → Bool
is_duration n = not n.negative && (leb 1 n.magnitude && leb n.magnitude 86400)

-- `atoi`, which is `strtol` cut to an `int`: its 32-bit pattern.
unfoldable pub atoi : List ℕ → ℕ
unfolding read_number
atoi text =
    let n = read_number text in
    if n.negative
    then (2 ^ 64 - (if ltb (2 ^ 63) n.magnitude then 2 ^ 63 else n.magnitude)) % 2 ^ 32
    else (if ltb (2 ^ 63 - 1) n.magnitude then 2 ^ 63 - 1 else n.magnitude) % 2 ^ 32
