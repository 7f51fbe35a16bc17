-- ===== src/AmoBridge/Tests.antt =====
-- Runs of the AMO bridge.
use navigation.Prelude.{◌≡◌, refl, true, false, [], ◌∷◌, pos, ◌-ℤ◌, All, List}
use navigation.Float.{Millis, millis, milli, Millis-IsOrdered}
use navigation.Velocity.{Velocity, standstill, clip}
use navigation.AmoBridge.{
  Params, Bridge, Event, twist, estop_msg, tick, init, on_twist, on_estop, on_tick, run,
}
use navigation.AmoBridge.Safety.{IsStop, amo_held, IsAllowed, forwards-IsAllowed}

abbrev params : Params Millis
params = record {
  vmax = record { vx = milli (pos 800); vy = milli (pos 400); wz = milli (pos 400) };
  cmd_timeout = milli (pos 500);
}

abbrev forward : Velocity Millis
forward = record { vx = milli (pos 900); vy = milli (pos 0); wz = milli (pos 0) }

abbrev capped : Velocity Millis
capped = record { vx = milli (pos 800); vy = milli (pos 0); wz = milli (pos 0) }

abbrev script : List (Event Millis)
script =
    twist (milli (pos 100)) forward
    ∷ tick (milli (pos 150)) true
    ∷ tick (milli (pos 700)) true
    ∷ estop_msg (milli (pos 710)) true
    ∷ twist (milli (pos 720)) forward
    ∷ tick (milli (pos 730)) false
    ∷ estop_msg (milli (pos 740)) false
    ∷ tick (milli (pos 750)) true
    ∷ []

-- Forward, then a timeout, then the e-stop, and forward again.
script_runs :
    (run params script (init params (milli (pos 0)))).1
    ≡ capped ∷ standstill ∷ standstill ∷ standstill ∷ capped ∷ []
unfolding run init on_twist on_estop on_tick clip ◌-ℤ◌
script_runs = refl

abbrev held : Bridge Millis
held = record {
  cmd = standstill;
  last_cmd_t = milli (pos 0);
  timed_out = false;
  estop = true;
  connected = true;
}

abbrev noise : List (Event Millis)
noise = twist (milli (pos 100)) forward ∷ tick (milli (pos 150)) true ∷ []

amo_held_example : ((run params noise held).0.estop ≡ true) × All IsStop (run params noise held).1
amo_held_example = amo_held params noise held refl (tt, (tt, tt))

forwards-IsAllowed_example :
    All (IsAllowed params Millis-IsOrdered) (run params script (init params (milli (pos 0)))).1
forwards-IsAllowed_example =
    forwards-IsAllowed params Millis-IsOrdered
      (record { cap_x = refl; cap_y = refl; cap_wz = refl }) (milli (pos 0)) script
