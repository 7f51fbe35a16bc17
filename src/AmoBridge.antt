-- ===== src/AmoBridge.antt =====
-- `CmdVelToAmo` of ros2_ws/src/g1_sim_bridge/g1_sim_bridge/cmd_vel_to_amo_node.py, over the frames that
-- it hands to its WebSocket client. Whether a frame was sent is an argument of the tick; readings of
-- `time.monotonic()` are arguments, parameters of the node are fields, and log lines are left out.
pub mod Safety
mod Tests
use package.navigation.Prelude.{Bool, true, false, not, List, [], ◌∷◌, ◌++◌, if◌then◌else◌, same}
use package.navigation.Float.{Float, ◌⊖◌, less}
use package.navigation.Velocity.{Velocity, standstill, clip}

pub record Params (F : Type 0) : Type 0 where
  pub vmax : Velocity F
  pub cmd_timeout : F

pub record Bridge (F : Type 0) : Type 0 where
  pub cmd : Velocity F
  pub last_cmd_t : F
  pub timed_out : Bool
  pub estop : Bool
  pub connected : Bool

-- What wakes the node. A tick carries the reading of the clock and the result of `send_json`.
pub data Event (F : Type 0) : Type 0 where
  twist : F → Velocity F → Event F
  estop_msg : F → Bool → Event F
  tick : F → Bool → Event F

module _ {F : Type 0} ⦃f : Float F⦄ (p : Params F) where
  open p use {vmax, cmd_timeout}

  unfoldable pub init : F → Bridge F
  init now = record {
    cmd = standstill;
    last_cmd_t = now;
    timed_out = false;
    estop = false;
    connected = false;
  }

  unfoldable pub on_twist : F → Velocity F → Bridge F → Bridge F
  on_twist now v b = record b {
    cmd = record { vx = clip v.vx vmax.vx; vy = clip v.vy vmax.vy; wz = clip v.wz vmax.wz };
    last_cmd_t = now;
    timed_out = if b.timed_out then false else b.timed_out;
  }

  unfoldable pub on_estop : F → Bool → Bridge F → Bridge F × List (Velocity F)
  on_estop now engaged b =
      if same engaged b.estop
      then (b, [])
      else if engaged
      then (record b { estop = engaged; cmd = standstill; last_cmd_t = now }, standstill ∷ [])
      else (record b { estop = engaged }, [])

  unfoldable pub on_tick : F → Bool → Bridge F → Bridge F × List (Velocity F)
  on_tick now ok b =
      let stale = less cmd_timeout (now ⊖ b.last_cmd_t) in
      let watched : Bridge F =
        if stale then record b { cmd = standstill; timed_out = true } else b in
      if b.estop
      then (b, standstill ∷ [])
      else (record watched { connected = ok }, watched.cmd ∷ [])

  unfoldable pub handle : Event F → Bridge F → Bridge F × List (Velocity F)
  handle (twist now v) b = (on_twist now v b, [])
  handle (estop_msg now engaged) b = on_estop now engaged b
  handle (tick now ok) b = on_tick now ok b

  unfoldable pub run : List (Event F) → Bridge F → Bridge F × List (Velocity F)
  unfolding handle
  run [] b = (b, [])
  run (e ∷ es) b = let (b', sent) = handle e b in let (b'', rest) = run es b' in (b'', sent ++ rest)
