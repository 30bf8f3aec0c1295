-- ===== src/Probe/Counters.antt =====
-- mac/Probe/main.c: `update_max_touches` and the counters of `contact_callback`. The loop of
-- `update_max_touches` runs in any number of callbacks at once, and its steps interleave.
use touchpad.Base.{
  ℕ, zero, suc, ◌+◌, ◌%◌, ◌^◌, Bool, not, ◌&&◌, ◌||◌, ltb, ◌==◌, if◌then◌else◌, List, [], ◌∷◌,
}

abbrev pub max_reasonable_touches : ℕ
max_reasonable_touches = 32

-- A call of `update_max_touches`: in front of the load, at the test of the loop with `current`, and returned.
pub data Updater : Type 0 where
  called : ℕ → Updater
  comparing : ℕ → ℕ → Updater
  returned : ℕ → Updater

-- One step of a call, on `g_max_touches`. The weak exchange may fail although the value is as expected,
-- which `spurious` says; when it fails it loads the value into `current`.
unfoldable pub advance : Bool → Updater → ℕ → Updater × ℕ
advance spurious (called candidate) maximum = (comparing candidate maximum, maximum)
advance spurious (comparing candidate current) maximum =
    if not (ltb current candidate)
    then (returned candidate, maximum)
    else if not spurious && maximum == current
    then (returned candidate, candidate)
    else (comparing candidate maximum, maximum)
advance spurious (returned candidate) maximum = (returned candidate, maximum)

-- The calls, and the shared value.
pub record Maximum : Type 0 where
  pub value : ℕ
  pub updaters : List Updater

-- The step of the call at an index.
unfoldable pub advance_at : Bool → ℕ → List Updater → ℕ → List Updater × ℕ
unfolding advance
advance_at spurious i [] value = ([], value)
advance_at spurious zero (u ∷ us) value =
    let (u', value') = advance spurious u value in (u' ∷ us, value')
advance_at spurious (suc i) (u ∷ us) value =
    let (us', value') = advance_at spurious i us value in (u ∷ us', value')

-- A schedule: which call steps next, and whether its exchange fails for no reason.
unfoldable pub run_updates : List (ℕ × Bool) → Maximum → Maximum
unfolding advance_at
run_updates [] m = m
run_updates ((i, spurious) ∷ schedule) m =
    let (updaters, value) = advance_at spurious i m.updaters m.value in
    run_updates schedule (record { value = value; updaters = updaters })

-- The counters, with `g_max_touches` of a callback that runs alone.
pub record Counters : Type 0 where
  pub frame_count : ℕ
  pub touch_count : ℕ
  pub invalid_frame_count : ℕ
  pub max_touches : ℕ

-- `contact_callback`, up to what it prints; `touches` says whether the pointer is not null.
unfoldable pub count_callback : Bool → ℕ → Counters → Counters
count_callback touches touch_count c =
    if ltb max_reasonable_touches touch_count || (ltb 0 touch_count && not touches)
    then record c { invalid_frame_count = (c.invalid_frame_count + 1) % 2 ^ 64 }
    else record c {
      frame_count = (c.frame_count + 1) % 2 ^ 64;
      touch_count = (c.touch_count + touch_count) % 2 ^ 64;
      max_touches =
          if ltb c.max_touches (touch_count % 2 ^ 32) then touch_count % 2 ^ 32 else c.max_touches;
    }
