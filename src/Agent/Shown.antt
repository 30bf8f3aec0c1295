-- ===== src/Agent/Shown.antt =====
-- mac/Agent/main.c: the contacts that `contact_callback` makes of touches, field by field.
use touchpad.Base.{ℕ, zero, suc, ◌%◌, ◌^◌, ◌≡◌, refl, arith, List, [], ◌∷◌}
use touchpad.Wire.Types.{Contact}
use touchpad.Agent.Capture.{MtTouch, flags_for_state, touch_contact, touch_contacts}

-- The flags of a touch, by its state: it is in range in the states 1 to 6, its tip is down in 3 and 4,
-- and there is always confidence.
abbrev pub flags_of_state : ℕ → ℕ
flags_of_state zero = 4
flags_of_state (suc zero) = 5
flags_of_state (suc (suc zero)) = 5
flags_of_state (suc (suc (suc zero))) = 7
flags_of_state (suc (suc (suc (suc zero)))) = 7
flags_of_state (suc (suc (suc (suc (suc zero))))) = 5
flags_of_state (suc (suc (suc (suc (suc (suc zero)))))) = 5
flags_of_state (suc (suc (suc (suc (suc (suc (suc state))))))) = 4

flags_for_state_lem : (state : ℕ) → flags_for_state state ≡ flags_of_state state
unfolding flags_for_state
flags_for_state_lem zero = refl
flags_for_state_lem (suc zero) = refl
flags_for_state_lem (suc (suc zero)) = refl
flags_for_state_lem (suc (suc (suc zero))) = refl
flags_for_state_lem (suc (suc (suc (suc zero)))) = refl
flags_for_state_lem (suc (suc (suc (suc (suc zero))))) = refl
flags_for_state_lem (suc (suc (suc (suc (suc (suc zero)))))) = refl
flags_for_state_lem (suc (suc (suc (suc (suc (suc (suc state))))))) = ground arith

-- A contact for a touch.
pub record Shows (t : MtTouch) (c : Contact) : Type 0 where
  pub identifier : c.identifier ≡ t.identifier
  pub state : c.state ≡ t.state % 2 ^ 8
  pub flags : c.flags ≡ flags_of_state t.state
  pub x : c.x ≡ t.position_x
  pub y : c.y ≡ t.position_y
  pub velocity_x : c.velocity_x ≡ t.velocity_x
  pub velocity_y : c.velocity_y ≡ t.velocity_y
  pub size : c.size ≡ t.size
  pub angle : c.angle ≡ t.angle
  pub major_axis : c.major_axis ≡ t.major_axis
  pub minor_axis : c.minor_axis ≡ t.minor_axis
  pub density : c.density ≡ t.density

-- A contact for each touch, in the order of the touches.
abbrev pub ShowsAll : List MtTouch → List Contact → Type 0
ShowsAll [] [] = Unit
ShowsAll [] (c ∷ cs) = ⊥
ShowsAll (t ∷ ts) [] = ⊥
ShowsAll (t ∷ ts) (c ∷ cs) = Shows t c × ShowsAll ts cs

pub touch_contacts-ShowsAll : (ts : List MtTouch) → ShowsAll ts (touch_contacts ts)
unfolding touch_contacts touch_contact
touch_contacts-ShowsAll [] = tt
touch_contacts-ShowsAll (t ∷ ts) = (
  record {
    identifier = refl;
    state = refl;
    flags = flags_for_state_lem t.state;
    x = refl;
    y = refl;
    velocity_x = refl;
    velocity_y = refl;
    size = refl;
    angle = refl;
    major_axis = refl;
    minor_axis = refl;
    density = refl;
  },
  touch_contacts-ShowsAll ts,
)
