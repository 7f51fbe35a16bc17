-- ===== src/MpcNode/Command.antt =====
-- The velocity commands of mpc_node.py: the turn in place of `_publish_heading_align`, and of `_solve_cb`
-- the limit that adapts to failures, the soft hold after a failed solve, and the heading blend.
pub mod Limits
pub mod Bounds
use navigation.Prelude.{ℕ, suc, Bool, Option, none, some, ◌&&◌, leb, if◌then◌else◌}
use navigation.Float.{Float, ◌⊕◌, ◌⊖◌, ◌⊗◌, ◌⊘◌, less, nought, unit, negate, fmax, fmin}
use navigation.Activation.{bound}
use navigation.MpcNode.Plane.{absolute, copysign}

-- A Twist: the linear velocities x and y, and the angular velocity z.
pub record Command (F : Type 0) : Type 0 where
  pub vx : F
  pub vy : F
  pub wz : F

pub record CommandParams (F : Type 0) : Type 0 where
  pub heading_kp : F
  pub heading_min_omega : F
  pub heading_max_omega : F
  pub soft_hold_cycles : ℕ
  pub soft_hold_decay : F
  pub align_start_dist : F
  pub reached_radius : F
  pub cfg_omega_max : F

-- `_last_good_cmd` and `_soft_hold_count`
pub record Hold (F : Type 0) : Type 0 where
  pub last_good : Command F
  pub soft_hold_count : ℕ

module _ {F : Type 0} ⦃f : Float F⦄ where
  abbrev pub halt : Command F
  halt = record { vx = nought; vy = nought; wz = nought }

  abbrev pub decayed : F → Command F → Command F
  decayed k c = record { vx = c.vx ⊗ k; vy = c.vy ⊗ k; wz = c.wz ⊗ k }

  module _ (p : CommandParams F) where
    -- `_adaptive_omega_max` keeps the value that it has from the configuration.
    abbrev pub turn_limit : F
    turn_limit = fmax nought (fmin p.heading_max_omega p.cfg_omega_max)

    unfoldable pub align_turn : F → F
    unfolding bound
    align_turn yaw_err = bound (p.heading_kp ⊗ yaw_err) (negate turn_limit) turn_limit

    -- The turn of `_publish_heading_align`.
    unfoldable pub heading_align : F → F
    heading_align yaw_err =
        let cmd = align_turn yaw_err in
        let min_omega = fmin (absolute p.heading_min_omega) turn_limit in
        if less (absolute cmd) min_omega then copysign min_omega yaw_err else cmd

    -- The command after a solve, which gave a first control or failed, and the next state of the hold.
    unfoldable pub soft_hold : Option (Command F) → Hold F → Command F × Hold F
    soft_hold (some u) h = (u, record { last_good = u; soft_hold_count = 0 })
    soft_hold none h =
        let kept = decayed p.soft_hold_decay h.last_good in
        if leb (suc h.soft_hold_count) p.soft_hold_cycles
        then (kept, record { last_good = kept; soft_hold_count = suc h.soft_hold_count })
        else (halt, record { last_good = halt; soft_hold_count = suc h.soft_hold_count })

    -- The weight of the goal's heading at a distance from the goal, when it is above zero.
    unfoldable pub approach_weight : F → Option F
    unfolding bound
    approach_weight dist =
        let span = p.align_start_dist ⊖ p.reached_radius in
        let beta = bound ((p.align_start_dist ⊖ dist) ⊘ fmax span (f.lit 1 1000)) nought unit in
        if less p.reached_radius p.align_start_dist && less dist p.align_start_dist
        then some beta
        else none

    abbrev pub blended_turn : F → F → F → F
    blended_turn beta yaw_err wz = (unit ⊖ beta) ⊗ wz ⊕ beta ⊗ align_turn yaw_err

    -- The final-approach blend of tracking mode.
    unfoldable pub approach_blend : F → F → Command F → Command F
    approach_blend dist yaw_err c = elim (approach_weight dist) [
      | none ↦ c
      | some beta ↦ record c { wz = blended_turn beta yaw_err c.wz }
    ]
