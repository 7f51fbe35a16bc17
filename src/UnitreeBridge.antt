-- ===== src/UnitreeBridge.antt =====
-- `CmdVelToUnitreeLoco` of ros2_ws/src/g1_sim_bridge/g1_sim_bridge/cmd_vel_to_unitree_loco_node.py:
-- the state of the node, its callbacks and its timer, over the commands that it sends to the robot; Node has
-- the whole node, with its bring-up thread.
-- Readings of `time.monotonic()` are arguments, parameters of the node are fields, and log lines
-- are left out.
pub mod Node
pub mod Safety
pub mod Held
mod Tests
use package.navigation.Prelude.{ℕ, Bool, true, false, not, List, [], ◌∷◌, ◌++◌, if◌then◌else◌, same}
use package.navigation.Float.{Float, ◌⊖◌, less, nought, unit}
use package.navigation.Velocity.{
  Velocity, SmootherConfig, Smoother, standstill, clip, reset, smooth,
}

-- What goes to `LocoClient`: `SetVelocity` with its duration, and `SetFsmId`.
pub data Command (F : Type 0) : Type 0 where
  set_velocity : Velocity F → F → Command F
  set_fsm_id : ℕ → Command F

-- Parameters of the node.
pub record Params (F : Type 0) : Type 0 where
  pub vmax : Velocity F
  pub cmd_timeout : F
  pub hold_s : F
  pub damp_on_shutdown : Bool
  pub smoothing : SmootherConfig F

pub record Bridge (F : Type 0) : Type 0 where
  pub smoother : Smoother F
  pub cmd : Velocity F
  pub last_cmd_t : F
  pub timed_out : Bool
  pub estop : Bool
  pub last_tick_t : F

-- What wakes the node, with the readings of the clock that its handler makes.
pub data Event (F : Type 0) : Type 0 where
  twist : F → Velocity F → Event F
  estop_msg : F → Bool → Event F
  tick : F → F → Event F

abbrev pub fsm_damp : ℕ
fsm_damp = 1

module _ {F : Type 0} ⦃f : Float F⦄ (p : Params F) where
  open p use {vmax, cmd_timeout, hold_s, damp_on_shutdown, smoothing}

  -- The state after `__init__`.
  unfoldable pub init : F → Bridge F
  unfolding reset
  init now = record {
    smoother = record { cfg = smoothing; sent = standstill; t0 = now };
    cmd = standstill;
    last_cmd_t = now;
    timed_out = false;
    estop = false;
    last_tick_t = now;
  }

  unfoldable pub on_twist : F → Velocity F → Bridge F → Bridge F
  on_twist now v b = record b {
    cmd = record { vx = clip v.vx vmax.vx; vy = clip v.vy vmax.vy; wz = clip v.wz vmax.wz };
    last_cmd_t = now;
    timed_out = if b.timed_out then false else b.timed_out;
  }

  -- `stop_move` of the driver is `set_velocity` with its default duration.
  abbrev pub stop_move : Command F
  stop_move = set_velocity standstill unit

  unfoldable pub on_estop : F → Bool → Bridge F → Bridge F × List (Command F)
  unfolding reset
  on_estop now engaged b =
      if same engaged b.estop
      then (b, [])
      else if engaged
      then (
        record b { estop = engaged; cmd = standstill; smoother = reset now b.smoother },
        stop_move ∷ [],
      )
      else (record b { estop = engaged }, [])

  -- `now` is the reading at the start, `later` the one inside the smoother.
  unfoldable pub on_tick : F → F → Bridge F → Bridge F × List (Command F)
  unfolding reset
  on_tick now later b =
      let dt = now ⊖ b.last_tick_t in
      let ticked : Bridge F = record b { last_tick_t = now } in
      let smoothed = smooth later b.cmd dt b.smoother in
      if b.estop
      then (ticked, set_velocity standstill hold_s ∷ [])
      else if less cmd_timeout (now ⊖ b.last_cmd_t)
      then (
        record ticked { timed_out = true; cmd = standstill; smoother = reset later b.smoother },
        set_velocity standstill hold_s ∷ [],
      )
      else (record ticked { smoother = smoothed }, set_velocity smoothed.sent hold_s ∷ [])

  unfoldable pub handle : Event F → Bridge F → Bridge F × List (Command F)
  handle (twist now v) b = (on_twist now v b, [])
  handle (estop_msg now engaged) b = on_estop now engaged b
  handle (tick now later) b = on_tick now later b

  -- The commands of `destroy_node`.
  unfoldable pub destroy_node : List (Command F)
  destroy_node = stop_move ∷ (if damp_on_shutdown then set_fsm_id fsm_damp ∷ [] else [])
