-- ===== src/UnitreeBridge/Tests.antt =====
-- Runs of the Unitree bridge.
use navigation.Prelude.{◌≡◌, ◌≢◌, refl, true, false, [], ◌∷◌, pos, ◌+ℤ◌, ◌-ℤ◌, All, List, arith}
use navigation.Float.{Millis, millis, milli, Millis-IsOrdered, less, ◌⊖◌, isqrt}
use navigation.Velocity.{Velocity, standstill, smooth, clip}
use navigation.UnitreeBridge.{
  Params, Bridge, set_velocity, set_fsm_id, Event, on_estop, twist, estop_msg, tick, init, on_twist,
  on_tick, handle, destroy_node,
}
use navigation.UnitreeBridge.Node.{
  Activity, callback, thread_sends, shutdown, Node, fsm_stand_up, thread_step, act, run,
}
use navigation.UnitreeBridge.Held.{IsHeld, run-AllHeld}
use navigation.UnitreeBridge.Safety.{
  moves_only_if_live, IsSane, IsValid, Sends, interval, init-IsValid, handle-IsValid,
}

abbrev params : Params Millis
params = record {
  vmax = record { vx = milli (pos 500); vy = milli (pos 120); wz = milli (pos 500) };
  cmd_timeout = milli (pos 500);
  hold_s = milli (pos 500);
  damp_on_shutdown = true;
  smoothing = record {
    startup_ramp_s = milli (pos 3000);
    lin_accel_max = milli (pos 600);
    yaw_accel_max = milli (pos 1200);
    lowpass_alpha = milli (pos 350);
  };
}

abbrev forward : Velocity Millis
forward = record { vx = milli (pos 800); vy = milli (pos 0); wz = milli (pos 0) }

abbrev halted : Bridge Millis
halted = record {
  smoother = record { cfg = params.smoothing; sent = standstill; t0 = milli (pos 0) };
  cmd = standstill;
  last_cmd_t = milli (pos 0);
  timed_out = false;
  estop = true;
  last_tick_t = milli (pos 0);
}

abbrev noise : List (Activity Millis)
noise =
    callback (twist (milli (pos 100)) forward)
    ∷ thread_sends
    ∷ callback (tick (milli (pos 150)) (milli (pos 151)))
    ∷ callback (estop_msg (milli (pos 160)) true)
    ∷ shutdown
    ∷ []

-- A second of forward command on a bridge that has been up for three seconds.
speeds_up :
    (run params
      (callback (twist (milli (pos 3000)) forward)
        ∷ callback (tick (milli (pos 3050)) (milli (pos 3050)))
        ∷ [])
      (record {
        bridge = record (init params (milli (pos 0))) { last_tick_t = milli (pos 3000) };
        pending = [];
      })).1
    ≡ set_velocity
        (record { vx = milli (pos 30); vy = milli (pos 0); wz = milli (pos 0) })
        (milli (pos 500))
      ∷ []
unfolding run act handle on_twist clip on_tick init smooth isqrt ◌+ℤ◌ ◌-ℤ◌
speeds_up = refl

abbrev standing_up : Node Millis
standing_up = record { bridge = halted; pending = fsm_stand_up ∷ 501 ∷ [] }

-- The bring-up goes on while the e-stop is engaged.
standing_up_sends :
    (run params noise standing_up).1
    ≡ set_fsm_id 4
      ∷ set_velocity standstill (milli (pos 500))
      ∷ set_velocity standstill (milli (pos 1000))
      ∷ set_fsm_id 1
      ∷ []
unfolding run act thread_step handle on_twist on_tick on_estop destroy_node
standing_up_sends = refl

run-AllHeld_example :
    ((run params noise standing_up).0.bridge.estop ≡ true)
    × All (IsHeld params (fsm_stand_up ∷ 501 ∷ [])) (run params noise standing_up).1
run-AllHeld_example = run-AllHeld params noise standing_up refl (tt, (tt, (tt, (refl, (tt, tt)))))

abbrev slow : Velocity Millis
slow = record { vx = milli (pos 30); vy = milli (pos 0); wz = milli (pos 0) }

thirty : slow ≢ standstill {F = Millis}
thirty e = ground arith

abbrev moving : Bridge Millis
moving = record (on_twist params (milli (pos 3000)) forward (init params (milli (pos 0)))) {
  last_tick_t = milli (pos 3000);
}

moves_only_if_live_example :
    (moving.estop ≡ false)
    × (less params.cmd_timeout (milli (pos 3050) ⊖ moving.last_cmd_t) ≡ false)
unfolding on_twist clip on_tick init smooth isqrt ◌+ℤ◌ ◌-ℤ◌
moves_only_if_live_example =
    moves_only_if_live params (milli (pos 3050)) (milli (pos 3050)) moving
      (record { vx = milli (pos 30); vy = milli (pos 0); wz = milli (pos 0) }) (milli (pos 500))
      refl thirty

sane : IsSane params Millis-IsOrdered
sane = record { cap_x = refl; cap_y = refl; cap_wz = refl; lin = refl; yaw = refl }

handle-IsValid_example :
    let b = init params (milli (pos 0)) in
    let e : Event Millis = twist (milli (pos 3000)) forward in
    IsValid params Millis-IsOrdered (handle params e b).0
    × Sends params Millis-IsOrdered
        (interval params Millis-IsOrdered e b)
        b.smoother.sent
        (handle params e b).0.smoother.sent
        (handle params e b).1
handle-IsValid_example =
    handle-IsValid params Millis-IsOrdered sane (twist (milli (pos 3000)) forward)
      (init params (milli (pos 0))) (init-IsValid params Millis-IsOrdered sane (milli (pos 0)))
