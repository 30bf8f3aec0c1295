-- ===== src/Probe/Tests.antt =====
-- mac/Probe: the theorems on concrete values, and the static assertions of the header.
use touchpad.Base.{ℕ, ◌≡◌, refl, arith, Bool, true, false, some, List, [], ◌∷◌}
use touchpad.Text.Decimal.{decimal}
use touchpad.Probe.Counters.{Maximum, called, run_updates}
use touchpad.Probe.Max.{IsMaximum, run_updates-IsMaximum}
use touchpad.Probe.Main.{parse_duration, duration_flag, parse_duration-decimal}
use touchpad.Probe.Abi.{sizeof_mt_point, sizeof_mt_readout, sizeof_mt_touch}

point_size : sizeof_mt_point ≡ 8
point_size = refl

readout_size : sizeof_mt_readout ≡ 16
readout_size = refl

touch_size : sizeof_mt_touch ≡ 96
touch_size = refl

-- Two calls that load the value before either writes; the first exchange fails once for no reason.
abbrev two_calls : Maximum
two_calls = record { value = 1; updaters = called 3 ∷ called 2 ∷ [] }

abbrev schedule : List (ℕ × Bool)
schedule =
    (0, false) ∷ (1, false) ∷ (0, true) ∷ (1, false) ∷ (0, false) ∷ (0, false) ∷ (1, false) ∷ []

run_updates-IsMaximum_example : IsMaximum two_calls (run_updates schedule two_calls)
run_updates-IsMaximum_example = run_updates-IsMaximum schedule two_calls (tt, (tt, tt))

parse_duration-decimal_example : parse_duration ([] ∷ duration_flag ∷ decimal 3600 ∷ []) ≡ some 3600
parse_duration-decimal_example = parse_duration-decimal [] 3600 (omega arith) (omega arith)
