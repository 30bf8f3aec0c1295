-- ===== src/Agent/Options.antt =====
-- mac/Agent/main.c: which arguments are taken, and what the settings are then.
use touchpad.Base.{
  ℕ, ◌≤◌, ◌≡◌, ◌≢◌, ◌∙◌, ap, refl, subst, inl, inr, arith, Bool, true, false, not, ◌&&◌, ◌||◌, leb,
  ◌==◌, ◌!=◌, if◌then◌else◌, Option, none, some, List, [], ◌∷◌, length, Bool-cases,
}
use touchpad.Text.Numbers.{atoi}
use touchpad.Agent.Types.{Agent}
use touchpad.Agent.Capture.{float_lt, is_nan, press_button}
use touchpad.Agent.Settings.{
  Settings, OptionKind, duration, trace, threshold, other, kind_of, largest_threshold,
  threshold_flag, default_settings, set_duration, set_trace, set_port, set_threshold, then_parse,
  parse_option, parse_last, parse_options, parse_arguments,
}

-- Settings that the agent runs with: at most a day, no trace file without a name, and a threshold that is neither
-- below zero nor above a million.
pub record IsSettings (s : Settings) : Type 0 where
  pub duration : s.duration ≤ 86400
  pub trace : s.button_trace_path ≢ some []
  pub at_least : float_lt s.pressure_threshold 0 ≡ false
  pub at_most : float_lt largest_threshold s.pressure_threshold ≡ false

abbrev pub IfTaken : (Settings → Type 0) → Option Settings → Type 0
IfTaken P none = Unit
IfTaken P (some s) = P s

if-IfTaken :
    (P : Settings → Type 0) (b : Bool) (s : Settings)
    → (b ≡ true → P s)
    → IfTaken P (if b then some s else none)
if-IfTaken P true s h = h refl
if-IfTaken P false s h = tt

set_duration-IsSettings :
    (value : List ℕ) (s : Settings) → IsSettings s → IfTaken IsSettings (set_duration value s)
set_duration-IsSettings value s i =
    if-IfTaken IsSettings (leb 1 (atoi value) && leb (atoi value) 86400)
      (record s { duration = atoi value })
      (λ h. record {
        duration = ground (arith, h);
        trace = i.trace;
        at_least = i.at_least;
        at_most = i.at_most;
      })

set_trace-IsSettings :
    (value : List ℕ) (s : Settings) → IsSettings s → IfTaken IsSettings (set_trace value s)
set_trace-IsSettings [] s i = tt
set_trace-IsSettings (c ∷ path) s i = record {
  duration = i.duration;
  trace = λ e. cc;
  at_least = i.at_least;
  at_most = i.at_most;
}

set_port-IsSettings :
    (value : List ℕ) (s : Settings) → IsSettings s → IfTaken IsSettings (set_port value s)
set_port-IsSettings value s i =
    if-IfTaken IsSettings (not s.port_seen) (record s { port = value; port_seen = true })
      (λ h. record {
        duration = i.duration;
        trace = i.trace;
        at_least = i.at_least;
        at_most = i.at_most;
      })

then_parse-IfTaken :
    (o : Option Settings) (next : Settings → Option Settings)
    → IfTaken IsSettings o
    → ((s : Settings) → IsSettings s → IfTaken IsSettings (next s))
    → IfTaken IsSettings (then_parse o next)
then_parse-IfTaken none next h n = tt
then_parse-IfTaken (some s) next h n = n s h

default_settings-IsSettings : (host : List ℕ) → IsSettings (default_settings host)
unfolding float_lt
default_settings-IsSettings host = record {
  duration = omega arith;
  trace = λ e. cc;
  at_least = refl;
  at_most = refl;
}

nan_above : (v : ℕ) → is_nan v ≡ true → float_lt 0 v ≡ false
unfolding float_lt
nan_above v h = ground (arith, h)

press_button_off :
    (tips pressure : ℕ) (a : Agent) (v : ℕ)
    → a.pressure_threshold ≡ v
    → is_nan v ≡ true
    → a.pressure_button_down ≡ false
    → (press_button tips pressure a).pressure_button_down ≡ false
unfolding press_button
press_button_off tips pressure a v e nan up =
    let off : float_lt 0 a.pressure_threshold ≡ false = ap (float_lt 0) e ∙ nan_above v nan in
    ground (arith, off, up)

module _ (strtof : List ℕ → ℕ × ℕ) where
  set_threshold-IsSettings :
      (value : List ℕ) (s : Settings)
      → IsSettings s
      → IfTaken IsSettings (set_threshold strtof value s)
  set_threshold-IsSettings value s i =
      elim (Bool-cases (
        (strtof value).1 == 0
        || ((strtof value).1 != length value
            || (float_lt (strtof value).0 0 || float_lt largest_threshold (strtof value).0)))) [
              | inl bad ↦ rw bad tt
              | inr good ↦ rw good (record {
                duration = i.duration;
                trace = i.trace;
                at_least = ground (arith, good);
                at_most = ground (arith, good);
              })
            ]

  parse_last-IsSettings :
      (kind : OptionKind) (argument : List ℕ) (s : Settings)
      → IsSettings s
      → IfTaken IsSettings (parse_last strtof kind argument s)
  parse_last-IsSettings duration argument s i = tt
  parse_last-IsSettings trace argument s i = tt
  parse_last-IsSettings threshold argument s i = tt
  parse_last-IsSettings other argument s i = set_port-IsSettings argument s i

  abbrev Keeps : (Settings → Option Settings) → Type 0
  Keeps next = (s : Settings) → IsSettings s → IfTaken IsSettings (next s)

  parse_option-IsSettings :
      (kind : OptionKind) (argument value : List ℕ) (s : Settings)
      (f g : Settings → Option Settings)
      → IsSettings s
      → Keeps f
      → Keeps g
      → IfTaken IsSettings (parse_option strtof kind argument value s f g)
  parse_option-IsSettings duration argument value s f g i h k =
      then_parse-IfTaken (set_duration value s) f (set_duration-IsSettings value s i) h
  parse_option-IsSettings trace argument value s f g i h k =
      then_parse-IfTaken (set_trace value s) f (set_trace-IsSettings value s i) h
  parse_option-IsSettings threshold argument value s f g i h k =
      then_parse-IfTaken (set_threshold strtof value s) f (set_threshold-IsSettings value s i) h
  parse_option-IsSettings other argument value s f g i h k =
      then_parse-IfTaken (set_port argument s) g (set_port-IsSettings argument s i) k

  parse_options-IsSettings : (arguments : List (List ℕ)) → Keeps (parse_options strtof arguments)
  unfolding parse_options
  parse_options-IsSettings [] s i = i
  parse_options-IsSettings (argument ∷ []) s i =
      parse_last-IsSettings (kind_of argument) argument s i
  parse_options-IsSettings (argument ∷ value ∷ arguments) s i =
      parse_option-IsSettings (kind_of argument) argument value s (parse_options strtof arguments)
        (parse_options strtof (value ∷ arguments)) i (parse_options-IsSettings arguments)
        (parse_options-IsSettings (value ∷ arguments))

  taken : (o : Option Settings) (s : Settings) → IfTaken IsSettings o → o ≡ some s → IsSettings s
  taken none s h e = absurd (cc)
  taken (some t) s h e = let same : t ≡ s = cc in subst IsSettings same h

  -- Whatever the arguments, and whatever `strtof` makes of them: settings that `main` takes have at most a day as
  -- their duration, no trace file without a name, and a threshold that is neither below zero nor above a
  -- million.
  pub parse_arguments-IsSettings :
      (arguments : List (List ℕ)) (s : Settings)
      → parse_arguments strtof arguments ≡ some s
      → IsSettings s
  unfolding parse_arguments
  parse_arguments-IsSettings [] s e = absurd (cc)
  parse_arguments-IsSettings (program ∷ []) s e = absurd (cc)
  parse_arguments-IsSettings (program ∷ host ∷ arguments) s e =
      taken (parse_options strtof arguments (default_settings host)) s
        (parse_options-IsSettings arguments (default_settings host)
          (default_settings-IsSettings host))
        e

  nan_passes :
      (v : ℕ) → is_nan v ≡ true → (float_lt v 0 ≡ false) × (float_lt largest_threshold v ≡ false)
  unfolding float_lt
  nan_passes v h = (rw h refl, ground (arith, h))

  -- A threshold that `strtof` reads as a NaN, from the whole of a text that is not empty, is taken; and a callback
  -- of an agent with such a threshold never puts the button down by pressure, however many fingers press
  -- however hard.
  pub parse_arguments-nan :
      (program host text : List ℕ) (v tips pressure : ℕ) (a : Agent)
      → text ≢ []
      → strtof text ≡ (v, length text)
      → is_nan v ≡ true
      → a.pressure_threshold ≡ v
      → a.pressure_button_down ≡ false
      → (parse_arguments strtof (program ∷ host ∷ threshold_flag ∷ text ∷ [])
          ≡ some (record (default_settings host) { pressure_threshold = v }))
        × ((press_button tips pressure a).pressure_button_down ≡ false)
  unfolding parse_arguments parse_options
  parse_arguments-nan program host [] v tips pressure a some_text whole nan set up =
      absurd (some_text refl)
  parse_arguments-nan program host (c ∷ text) v tips pressure a some_text whole nan set up = (
    rw (whole, (nan_passes v nan).0, (nan_passes v nan).1) (ground arith),
    press_button_off tips pressure a v set nan up,
  )
