-- ===== src/JoyToCmdVel/Tests.antt =====
-- The joystick with a deadman button.
use navigation.Prelude.{◌≡◌, refl, true, false, [], ◌∷◌, All, pos, negsuc}
use navigation.Float.{Millis, millis, milli}
use navigation.Velocity.{standstill}
use navigation.JoyToCmdVel.{Joy, Params, joy_msg, timer, axis, on_joy, published}
use navigation.JoyToCmdVel.Deadman.{IsStill, deadman_stops}

abbrev joy_params : Params Millis
joy_params = record {
  vx = record { idx = pos 1; scale = milli (pos 800); invert = true };
  vy = record { idx = pos 0; scale = milli (pos 400); invert = true };
  yaw = record { idx = pos 3; scale = milli (pos 400); invert = true };
  dz = milli (pos 80);
  enable = pos 0;
}

-- The stick up and a little to the side; there is no fourth axis.
abbrev held : Joy Millis
held = record { axes = milli (negsuc 49) ∷ milli (negsuc 499) ∷ []; buttons = true ∷ [] }

abbrev let_go : Joy Millis
let_go = record held { buttons = false ∷ [] }

drives :
    published joy_params (joy_msg held ∷ timer ∷ joy_msg let_go ∷ timer ∷ []) standstill
    ≡ record { vx = milli (pos 400); vy = milli (pos 0); wz = milli (pos 0) } ∷ standstill ∷ []
unfolding published on_joy axis
drives = refl

deadman_stops_example :
    All IsStill
      (published joy_params (joy_msg let_go ∷ timer ∷ joy_msg let_go ∷ timer ∷ []) standstill)
deadman_stops_example =
    deadman_stops joy_params let_go (timer ∷ joy_msg let_go ∷ timer ∷ []) standstill refl refl
      (tt, (refl, (tt, tt)))
