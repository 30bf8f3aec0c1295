-- ===== src/Probe/Main.antt =====
-- mac/Probe/main.c: `parse_duration`, `load_runtime` and `main`, without what they print.
use touchpad.Base.{
  ℕ, ◌+◌, ◌-◌, ◌*◌, ◌%◌, ◌^◌, ◌≤◌, ◌≡◌, ◌∙◌, ap, refl, ◌⊎◌, inl, inr, arith, Bool, true, false, not,
  ◌&&◌, ◌||◌, ltb, leb, if◌then◌else◌, Option, none, some, List, [], ◌∷◌, length, Bool-cases,
}
use touchpad.Text.Numbers.{same_text, Number, read_number, out_of_range, is_duration}
use touchpad.Text.Decimal.{decimal, read_number-decimal}

-- `--duration`
abbrev pub duration_flag : List ℕ
duration_flag = 45 ∷ 45 ∷ 100 ∷ 117 ∷ 114 ∷ 97 ∷ 116 ∷ 105 ∷ 111 ∷ 110 ∷ []

abbrev pub at_end : List ℕ → Bool
at_end [] = true
at_end (c ∷ text) = false

-- The tests on what `strtol` answers; `none` is the answer -1.
abbrev pub checked_duration : Number → Option ℕ
checked_duration n =
    if out_of_range n || (not n.found || (not (at_end n.rest) || not (is_duration n)))
    then none
    else some n.magnitude

-- The arguments of the program, its name first.
unfoldable pub parse_duration : List (List ℕ) → Option ℕ
unfolding read_number
parse_duration [] = none
parse_duration (program ∷ []) = some 0
parse_duration (program ∷ flag ∷ []) = none
parse_duration (program ∷ flag ∷ value ∷ []) =
    if same_text flag duration_flag then checked_duration (read_number value) else none
parse_duration (program ∷ flag ∷ value ∷ more ∷ arguments) = none

-- What `dlopen` and `dlsym` find; `is_built_in` may be missing.
pub record Framework {ℓ} (Device : Type ℓ) : Type ℓ where
  pub opens : Bool
  pub create_list : Bool
  pub register_callback : Bool
  pub start : Bool
  pub is_built_in : Option (Device → Bool)

module _ {ℓ} {Device : Type ℓ} where
  abbrev pub load_runtime : Framework Device → Bool
  load_runtime f = f.opens && (f.create_list && (f.register_callback && f.start))

  -- `runtime.is_built_in == NULL || runtime.is_built_in(device)`
  abbrev pub built_in : Option (Device → Bool) → Device → Bool
  built_in none device = true
  built_in (some test) device = test device

  -- The loop over the devices: those that are registered and started, in order.
  unfoldable pub start_devices : Option (Device → Bool) → List Device → List Device
  start_devices test [] = []
  start_devices test (device ∷ devices) =
      let rest = start_devices test devices in if built_in test device then device ∷ rest else rest

-- How the wait ends, on what `g_running` and then the clock are in each round: by a signal, by the duration,
-- or not yet.
pub data Waited : Type 0 where
  stopped elapsed going_on : Waited

unfoldable pub capture_wait : ℕ → ℕ → List (Bool × ℕ) → Waited
capture_wait duration start_time [] = going_on
capture_wait duration start_time ((running, now) ∷ rounds) =
    let rest = capture_wait duration start_time rounds in
    if not running
    then stopped
    else if ltb 0 duration && leb (duration * 1_000_000) ((now + (2 ^ 64 - start_time)) % 2 ^ 64)
    then elapsed
    else rest

-- The exit code of `main`, with the devices that it has started; `devices` is what `create_list` answers,
-- `none` for a null pointer. The code 0 is that behind the wait.
unfoldable pub main {ℓ} :
    {Device : Type ℓ} → Framework Device → Option (List Device) → List (List ℕ) → ℕ × List Device
unfolding parse_duration start_devices
main f devices arguments = elim (parse_duration arguments) [
  | none ↦ (2, [])
  | some duration ↦ if not (load_runtime f) then (1, []) else elim devices [
    | none ↦ (1, [])
    | some found ↦
        let started = start_devices f.is_built_in found in
        elim started [ [] ↦ (1, []) | device ∷ rest ↦ (0, device ∷ rest) ]
  ]
]

checked_duration-le : (n : Number) (d : ℕ) → checked_duration n ≡ some d → (1 ≤ d) × (d ≤ 86400)
checked_duration-le n d e = ground (arith, e)

-- Every number of seconds from one to 86400, written in decimal digits behind the flag, is read as itself.
pub parse_duration-decimal :
    (program : List ℕ) (n : ℕ)
    → 1 ≤ n
    → n ≤ 86400
    → parse_duration (program ∷ duration_flag ∷ decimal n ∷ []) ≡ some n
unfolding parse_duration
parse_duration-decimal program n l h =
    ap checked_duration (read_number-decimal n) ∙ ground (arith, l, h)

-- An answer of zero, which stands for no limit, is that of no argument; any other is from one to 86400.
pub parse_duration-le :
    (arguments : List (List ℕ)) (d : ℕ)
    → parse_duration arguments ≡ some d
    → ((d ≡ 0) × (length arguments ≡ 1)) ⊎ ((1 ≤ d) × (d ≤ 86400) × (length arguments ≡ 3))
unfolding parse_duration
parse_duration-le [] d e = absurd (cc)
parse_duration-le (program ∷ []) d e = inl (cc, refl)
parse_duration-le (program ∷ flag ∷ []) d e = absurd (cc)
parse_duration-le (program ∷ flag ∷ value ∷ []) d e =
    elim (Bool-cases (same_text flag duration_flag)) [
      | inl same ↦
          let (l, h) = checked_duration-le (read_number value) d (ground (arith, same, e)) in
          inr (l, h, refl)
      | inr other ↦ absurd (ground (arith, other, e))
    ]
parse_duration-le (program ∷ flag ∷ value ∷ more ∷ arguments) d e = absurd (cc)
