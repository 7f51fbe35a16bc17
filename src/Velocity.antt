-- ===== src/Velocity.antt =====
-- `VelocitySmoother` and its configuration in
-- ros2_ws/src/g1_sim_bridge/g1_sim_bridge/unitree_loco.py, and the clipping of a command that the two
-- bridges beside it share. A reading of `time.monotonic()` is an argument.
pub mod Slew
use package.navigation.Prelude.{if◌then◌else◌}
use package.navigation.Float.{
  Float, ◌⊕◌, ◌⊖◌, ◌⊗◌, ◌⊘◌, less, at_most, negate, nought, unit, fmax, fmin,
}

-- A command `(vx, vy, yaw)`.
pub record Velocity (F : Type 0) : Type 0 where
  pub vx : F
  pub vy : F
  pub wz : F

pub record SmootherConfig (F : Type 0) : Type 0 where
  pub startup_ramp_s : F
  pub lin_accel_max : F
  pub yaw_accel_max : F
  pub lowpass_alpha : F

pub record Smoother (F : Type 0) : Type 0 where
  pub cfg : SmootherConfig F
  pub sent : Velocity F
  pub t0 : F

module _ {F : Type 0} ⦃f : Float F⦄ where
  abbrev pub standstill : Velocity F
  standstill = record { vx = nought; vy = nought; wz = nought }

  -- `_clip` of both bridges: `max(-lim, min(lim, v))`.
  unfoldable pub clip : F → F → F
  clip v lim = fmax (negate lim) (fmin lim v)

  unfoldable pub reset : F → Smoother F → Smoother F
  reset now s = record s { sent = standstill; t0 = now }

  -- The slew limit of `_approach`.
  abbrev pub cut : F → F → F
  cut step lim = if less lim step then lim else if less step (negate lim) then negate lim else step

  unfoldable pub approach : F → F → F → F → F → F
  approach prev target alpha rate dt =
      let step = alpha ⊗ (target ⊖ prev) in let lim = rate ⊗ dt in prev ⊕ cut step lim

  -- `if dt <= 0.0: dt = 1e-3`
  abbrev pub positive : F → F
  positive dt = if at_most dt nought then f.lit 1 1000 else dt

  unfoldable pub ramp : F → Smoother F → F
  ramp now s =
      if at_most s.cfg.startup_ramp_s nought
      then unit
      else fmin unit ((now ⊖ s.t0) ⊘ s.cfg.startup_ramp_s)

  unfoldable pub smooth : F → Velocity F → F → Smoother F → Smoother F
  unfolding approach ramp
  smooth now v dt s =
      let c = s.cfg in
      let r = ramp now s in
      let d = positive dt in
      record s {
        sent = record {
          vx = approach s.sent.vx (v.vx ⊗ r) c.lowpass_alpha c.lin_accel_max d;
          vy = approach s.sent.vy (v.vy ⊗ r) c.lowpass_alpha c.lin_accel_max d;
          wz = approach s.sent.wz (v.wz ⊗ r) c.lowpass_alpha c.yaw_accel_max d;
        };
      }
