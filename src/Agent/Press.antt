-- ===== src/Agent/Press.antt =====
-- mac/Agent/main.c: the click by pressure in `contact_callback`, over the frames since it was last up.
use touchpad.Base.{
  ℕ, ◌+◌, ◌%◌, ◌^◌, ◌<◌, ◌≡◌, ◌∙◌, ap, sym, refl, subst, inl, inr, Bool, true, false, ◌&&◌, ◌||◌,
  ◌==◌, ◌!=◌, leb, if◌then◌else◌, arith, List, [], ◌∷◌, Bool-cases,
}
use touchpad.Agent.Types.{Agent}
use touchpad.Agent.Capture.{press_button, float_lt, float_ge}

-- Frames, each with its number of tips and its greatest pressure; the last one is in front.
abbrev pub Frames : Type 0
Frames = List (ℕ × ℕ)

-- The callbacks of the frames, one after the other.
abbrev pub press_frames : Frames → Agent → Agent
press_frames [] a = a
press_frames ((tips, pressure) ∷ frames) a = press_button tips pressure (press_frames frames a)

-- A press: one tip, whose pressure reaches the threshold, which is above zero.
abbrev pub is_press : ℕ → ℕ × ℕ → Bool
is_press threshold (tips, pressure) =
    tips == 1 && (float_lt 0 threshold && float_ge pressure threshold)

-- How many of the last frames are presses, in a row.
abbrev pub presses : ℕ → Frames → ℕ
presses threshold [] = 0
presses threshold (f ∷ frames) =
    let before = presses threshold frames in if is_press threshold f then before + 1 else 0

-- There were three presses in a row, and since then always one tip.
abbrev pub pressed : ℕ → Frames → Bool
pressed threshold [] = false
pressed threshold (f ∷ frames) =
    let before = pressed threshold frames in
    let three = leb 3 (presses threshold (f ∷ frames)) in f.0 == 1 && (before || three)

-- Between two frames: the click is down exactly when the frames say so, and while it is up the counter
-- holds the presses in a row.
record Follows (threshold : ℕ) (frames : Frames) (a : Agent) : Type 0 where
  same : a.pressure_threshold ≡ threshold
  down : a.pressure_button_down ≡ pressed threshold frames
  counter :
      pressed threshold frames ≡ false
      → (a.pressure_press_frames ≡ presses threshold frames) × (presses threshold frames < 3)

-- The frame by itself, by what it is.
press_button-keeps_threshold :
    (tips pressure : ℕ) (a : Agent)
    → (press_button tips pressure a).pressure_threshold ≡ a.pressure_threshold
unfolding press_button
press_button-keeps_threshold tips pressure a = ground arith

press_button-several :
    (tips pressure : ℕ) (a : Agent)
    → (tips == 1) ≡ false
    → ((press_button tips pressure a).pressure_button_down ≡ false)
      × ((press_button tips pressure a).pressure_press_frames ≡ 0)
unfolding press_button
press_button-several tips pressure a h =
    let several : (tips != 1) ≡ true = ground (arith, h) in rw several (refl, refl)

press_button-held :
    (tips pressure : ℕ) (a : Agent)
    → (tips == 1) ≡ true
    → a.pressure_button_down ≡ true
    → press_button tips pressure a ≡ a
unfolding press_button
press_button-held tips pressure a h down =
    let single : (tips != 1) ≡ false = ground (arith, h) in rw (single, down) refl

press_button-pressing :
    (tips pressure : ℕ) (a : Agent)
    → (tips == 1) ≡ true
    → a.pressure_button_down ≡ false
    → float_lt 0 a.pressure_threshold ≡ true
    → float_ge pressure a.pressure_threshold ≡ true
    → a.pressure_press_frames < 3
    → ((press_button tips pressure a).pressure_button_down ≡ leb 3 (a.pressure_press_frames + 1))
      × ((press_button tips pressure a).pressure_press_frames ≡ a.pressure_press_frames + 1)
unfolding press_button
press_button-pressing tips pressure a h up enabled hard few =
    let single : (tips != 1) ≡ false = ground (arith, h) in
    let wraps : (a.pressure_press_frames + 1) % 2 ^ 32 ≡ a.pressure_press_frames + 1 =
      omega (arith, few) in
    elim (Bool-cases (leb 3 (a.pressure_press_frames + 1))) [
      | inl third ↦ rw (single, up, enabled, hard, wraps, third) (refl, refl)
      | inr early ↦ rw (single, up, enabled, hard, wraps, early) (refl, refl)
    ]

press_button-soft :
    (tips pressure : ℕ) (a : Agent)
    → (tips == 1) ≡ true
    → a.pressure_button_down ≡ false
    → float_lt 0 a.pressure_threshold ≡ true
    → float_ge pressure a.pressure_threshold ≡ false
    → ((press_button tips pressure a).pressure_button_down ≡ false)
      × ((press_button tips pressure a).pressure_press_frames ≡ 0)
unfolding press_button
press_button-soft tips pressure a h up enabled soft =
    let single : (tips != 1) ≡ false = ground (arith, h) in
    rw (single, up, enabled, soft) (refl, refl)

press_button-disabled :
    (tips pressure : ℕ) (a : Agent)
    → (tips == 1) ≡ true
    → a.pressure_button_down ≡ false
    → float_lt 0 a.pressure_threshold ≡ false
    → press_button tips pressure a ≡ a
unfolding press_button
press_button-disabled tips pressure a h up disabled =
    let single : (tips != 1) ≡ false = ground (arith, h) in rw (single, up, disabled) refl

presses-disabled :
    (threshold : ℕ) (frames : Frames) → float_lt 0 threshold ≡ false → presses threshold frames ≡ 0
presses-disabled threshold [] h = refl
presses-disabled threshold ((tips, pressure) ∷ frames) h = elim (Bool-cases (tips == 1)) [
  | inl single ↦ rw (single, h) refl
  | inr several ↦ rw several refl
]

-- A frame with one tip, while the click is up.
single-Follows :
    (tips pressure : ℕ) (frames : Frames) (a : Agent)
    → Follows a.pressure_threshold frames a
    → (tips == 1) ≡ true
    → a.pressure_button_down ≡ false
    → Follows a.pressure_threshold ((tips, pressure) ∷ frames) (press_button tips pressure a)
single-Follows tips pressure frames a h single up =
    let t = a.pressure_threshold in
    let kept = press_button-keeps_threshold tips pressure a in
    let was : pressed t frames ≡ false = sym h.down ∙ up in
    let (count, few) = h.counter was in
    elim (Bool-cases (float_lt 0 t)) [
      | inr disabled ↦
          let same = press_button-disabled tips pressure a single up disabled in
          let none_before = presses-disabled t frames disabled in
          let none_now = presses-disabled t ((tips, pressure) ∷ frames) disabled in
          record {
            same = kept;
            down =
                ap (λ (b : Agent). b.pressure_button_down) same
                ∙ up
                ∙ sym (rw (single, disabled, was) refl);
            counter = λ e. (
              ap (λ (b : Agent). b.pressure_press_frames) same ∙ count ∙ none_before ∙ sym none_now,
              omega (arith, none_now),
            );
          }
      | inl enabled ↦ elim (Bool-cases (float_ge pressure t)) [
        | inl hard ↦
            let (down, counted) =
              press_button-pressing tips pressure a single up enabled hard
                (omega (arith, count, few)) in
            let more : presses t ((tips, pressure) ∷ frames) ≡ presses t frames + 1 =
              rw (single, enabled, hard) refl in
            let third : pressed t ((tips, pressure) ∷ frames) ≡ leb 3 (presses t frames + 1) =
              rw (single, was, enabled, hard) refl in
            record {
              same = kept;
              down = down ∙ ap (λ n. leb 3 (n + 1)) count ∙ sym third;
              counter = λ e.
                  let early : leb 3 (presses t frames + 1) ≡ false = sym third ∙ e in
                  (counted ∙ ap (λ (n : ℕ). n + 1) count ∙ sym more, ground (arith, more, early));
            }
        | inr soft ↦
            let (down, counted) = press_button-soft tips pressure a single up enabled soft in
            let none_now : presses t ((tips, pressure) ∷ frames) ≡ 0 =
              rw (single, enabled, soft) refl in
            record {
              same = kept;
              down = down ∙ sym (rw (single, was, enabled, soft) refl);
              counter = λ e. (counted ∙ sym none_now, omega (arith, none_now));
            }
      ]
    ]

press_button-Follows :
    (tips pressure : ℕ) (frames : Frames) (a : Agent)
    → Follows a.pressure_threshold frames a
    → Follows a.pressure_threshold ((tips, pressure) ∷ frames) (press_button tips pressure a)
press_button-Follows tips pressure frames a h =
    let kept = press_button-keeps_threshold tips pressure a in
    elim (Bool-cases (tips == 1)) [
      | inr several ↦
          let (up, none_counted) = press_button-several tips pressure a several in
          record {
            same = kept;
            down = up ∙ (rw several refl);
            counter = λ e. (none_counted ∙ (rw several refl), rw several (omega arith));
          }
      | inl single ↦ elim (Bool-cases a.pressure_button_down) [
        | inl held ↦
            let was : pressed a.pressure_threshold frames ≡ true = sym h.down ∙ held in
            let same = press_button-held tips pressure a single held in
            record {
              same = kept;
              down =
                  ap (λ (b : Agent). b.pressure_button_down) same
                  ∙ held
                  ∙ sym (rw (single, was) refl);
              counter = λ e.
                  let now : pressed a.pressure_threshold ((tips, pressure) ∷ frames) ≡ true =
                    rw (single, was) refl in
                  absurd (cc (now, e));
            }
        | inr up ↦ single-Follows tips pressure frames a h single up
      ]
    ]

press_frames-Follows :
    (frames : Frames) (a : Agent)
    → a.pressure_button_down ≡ false
    → a.pressure_press_frames ≡ 0
    → Follows a.pressure_threshold frames (press_frames frames a)
press_frames-Follows [] a up zero_count = record {
  same = refl;
  down = up;
  counter = λ e. (zero_count, omega arith);
}
press_frames-Follows ((tips, pressure) ∷ frames) a up zero_count =
    let h = press_frames-Follows frames a up zero_count in
    subst
      (λ t.
        Follows t ((tips, pressure) ∷ frames) (press_button tips pressure (press_frames frames a)))
      h.same
      (press_button-Follows tips pressure frames (press_frames frames a)
        (subst (λ t. Follows t frames (press_frames frames a)) (sym h.same) h))

-- The click by pressure, from an agent in which it is up and no press is counted, after any frames: it is
-- down exactly when three frames in a row had one tip with a pressure that reaches the threshold, which is
-- above zero, and every frame since then had one tip.
pub press_frames-pressed :
    (frames : Frames) (a : Agent)
    → a.pressure_button_down ≡ false
    → a.pressure_press_frames ≡ 0
    → (press_frames frames a).pressure_button_down ≡ pressed a.pressure_threshold frames
press_frames-pressed frames a up zero_count = (press_frames-Follows frames a up zero_count).down
