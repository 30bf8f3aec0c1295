-- ===== src/Agent/Settings.antt =====
-- mac/Agent/main.c: the arguments of `main`. A string is the list of its bytes, a float its bit pattern.
use touchpad.Base.{
  ℕ, Bool, true, false, not, ◌&&◌, ◌||◌, leb, ◌==◌, ◌!=◌, if◌then◌else◌, Option, none, some, List,
  [], ◌∷◌, length,
}
use touchpad.Text.Numbers.{same_text, atoi}
use touchpad.Agent.Capture.{float_lt}

pub record Settings : Type 0 where
  pub host : List ℕ
  pub port : List ℕ
  pub port_seen : Bool
  pub button_trace_path : Option (List ℕ)
  pub pressure_threshold : ℕ
  pub duration : ℕ

-- `39871`, and 90.0 and 1000000.0 in single precision
abbrev pub default_port : List ℕ
default_port = 51 ∷ 57 ∷ 56 ∷ 55 ∷ 49 ∷ []

abbrev pub default_threshold : ℕ
default_threshold = 0x42b4_0000

abbrev pub largest_threshold : ℕ
largest_threshold = 0x4974_2400

abbrev pub default_settings : List ℕ → Settings
default_settings host = record {
  host = host;
  port = default_port;
  port_seen = false;
  button_trace_path = none;
  pressure_threshold = default_threshold;
  duration = 0;
}

-- `--duration`, `--button-trace` and `--pressure-threshold`
abbrev pub duration_flag : List ℕ
duration_flag = 45 ∷ 45 ∷ 100 ∷ 117 ∷ 114 ∷ 97 ∷ 116 ∷ 105 ∷ 111 ∷ 110 ∷ []

abbrev pub trace_flag : List ℕ
trace_flag = 45 ∷ 45 ∷ 98 ∷ 117 ∷ 116 ∷ 116 ∷ 111 ∷ 110 ∷ 45 ∷ 116 ∷ 114 ∷ 97 ∷ 99 ∷ 101 ∷ []

abbrev pub threshold_flag : List ℕ
threshold_flag =
    45 ∷ 45 ∷ 112 ∷ 114 ∷ 101 ∷ 115 ∷ 115 ∷ 117 ∷ 114 ∷ 101 ∷ 45 ∷ 116 ∷ 104 ∷ 114 ∷ 101 ∷ 115 ∷ 104
    ∷ 111 ∷ 108 ∷ 100 ∷ []

-- Which of the branches of the loop an argument takes.
pub data OptionKind : Type 0 where
  duration trace threshold other : OptionKind

abbrev pub kind_of : List ℕ → OptionKind
kind_of argument =
    if same_text argument duration_flag
    then duration
    else if same_text argument trace_flag
    then trace
    else if same_text argument threshold_flag
    then threshold
    else other

-- The branches, on the value of the option; `none` is the answer of `usage`.
abbrev pub set_duration : List ℕ → Settings → Option Settings
set_duration value s =
    let n = atoi value in if leb 1 n && leb n 86400 then some (record s { duration = n }) else none

abbrev pub set_trace : List ℕ → Settings → Option Settings
set_trace [] s = none
set_trace (c ∷ path) s = some (record s { button_trace_path = some (c ∷ path) })

abbrev pub set_port : List ℕ → Settings → Option Settings
set_port argument s =
    if not s.port_seen then some (record s { port = argument; port_seen = true }) else none

abbrev pub then_parse : Option Settings → (Settings → Option Settings) → Option Settings
then_parse none next = none
then_parse (some s) next = next s

-- `strtof` gives the value of a text and the number of bytes that it has read.
module _ (strtof : List ℕ → ℕ × ℕ) where
  abbrev pub set_threshold : List ℕ → Settings → Option Settings
  set_threshold value s =
      let (v, read) = strtof value in
      if read == 0 || (read != length value || (float_lt v 0 || float_lt largest_threshold v))
      then none
      else some (record s { pressure_threshold = v })

  -- The body of the loop, with a value behind the argument and without one. The loop goes on behind the
  -- value of an option, and behind the argument otherwise.
  abbrev pub parse_option :
      OptionKind
      → List ℕ
      → List ℕ
      → Settings
      → (Settings → Option Settings)
      → (Settings → Option Settings)
      → Option Settings
  parse_option duration argument value s behind_value behind_argument =
      then_parse (set_duration value s) behind_value
  parse_option trace argument value s behind_value behind_argument =
      then_parse (set_trace value s) behind_value
  parse_option threshold argument value s behind_value behind_argument =
      then_parse (set_threshold value s) behind_value
  parse_option other argument value s behind_value behind_argument =
      then_parse (set_port argument s) behind_argument

  abbrev pub parse_last : OptionKind → List ℕ → Settings → Option Settings
  parse_last duration argument s = none
  parse_last trace argument s = none
  parse_last threshold argument s = none
  parse_last other argument s = set_port argument s

  unfoldable pub parse_options : List (List ℕ) → Settings → Option Settings
  unfolding atoi float_lt
  parse_options [] s = some s
  parse_options (argument ∷ []) s = parse_last (kind_of argument) argument s
  parse_options (argument ∷ value ∷ arguments) s =
      parse_option (kind_of argument) argument value s (parse_options arguments)
        (parse_options (value ∷ arguments))

  -- All arguments, the program's name first.
  unfoldable pub parse_arguments : List (List ℕ) → Option Settings
  unfolding parse_options
  parse_arguments [] = none
  parse_arguments (program ∷ []) = none
  parse_arguments (program ∷ host ∷ arguments) = parse_options arguments (default_settings host)
