-- ===== src/MpcTracker/Problem.antt =====
-- The optimisation problem that `_build_nlp` of mpc_tracker.py states, as functions of a trajectory: the
-- dynamics with actuator lag, the cost, and the bounds of the commands.
use navigation.Prelude.{◌≡◌, List, [], ◌∷◌}
use navigation.Float.{Float, ◌⊕◌, ◌⊖◌, ◌⊗◌, ◌⊘◌, ◌≼◌, nought, unit, negate, fmax}
use navigation.Float.Trig.{Trig}
use navigation.MpcNode.Plane.{Point, wrap_angle}
use navigation.MpcNode.Command.{Command}
use navigation.MpcTracker.{TrackerConfig, State}

-- The functions of CasADi that the problem uses besides the arithmetic.
pub record Smooth (F : Type 0) : Type 0 where
  pub exp : F → F
  pub tanh : F → F
  pub sqrt : F → F

module _ {F : Type 0} ⦃f : Float F⦄ ⦃t : Trig F⦄ (g : Smooth F) (cfg : TrackerConfig F) where
  abbrev pub lag : F → F
  lag tau = unit ⊖ g.exp (negate cfg.dt ⊘ fmax tau (f.lit 1 1000000))

  abbrev pub lagged : F → F → F → F
  lagged k v cmd = (unit ⊖ k) ⊗ v ⊕ k ⊗ cmd

  -- The state after a step: both the lateral and the angular velocity lag with `tau_w`.
  unfoldable pub next_state : State F → Command F → State F
  next_state x u =
      let vx' = lagged (lag cfg.tau_v) x.vx u.vx in
      let vy' = lagged (lag cfg.tau_w) x.vy u.vy in
      let wz' = lagged (lag cfg.tau_w) x.wz u.wz in
      record {
        px = x.px ⊕ (vx' ⊗ t.cos x.yaw ⊖ vy' ⊗ t.sin x.yaw) ⊗ cfg.dt;
        py = x.py ⊕ (vx' ⊗ t.sin x.yaw ⊕ vy' ⊗ t.cos x.yaw) ⊗ cfg.dt;
        yaw = x.yaw ⊕ wz' ⊗ cfg.dt;
        vx = vx';
        vy = vy';
        wz = wz';
      }

  abbrev pub square : F → F
  square a = a ⊗ a

  abbrev pub tracking_cost : State F → State F → F
  tracking_cost x r =
      cfg.q_x ⊗ square (x.px ⊖ r.px)
      ⊕ cfg.q_y ⊗ square (x.py ⊖ r.py)
      ⊕ cfg.q_yaw ⊗ square (wrap_angle (x.yaw ⊖ r.yaw))

  abbrev pub control_cost : Command F → F
  control_cost u = cfg.r_vx ⊗ square u.vx ⊕ cfg.r_vy ⊗ square u.vy ⊕ cfg.r_omega ⊗ square u.wz

  abbrev pub jerk_cost : Command F → Command F → F
  jerk_cost u before =
      cfg.r_jerk
      ⊗ (square (u.vx ⊖ before.vx) ⊕ square (u.vy ⊖ before.vy) ⊕ square (u.wz ⊖ before.wz))

  -- The barrier of an obstacle: `tanh` in the soft zone, and a square inside the radius.
  unfoldable pub barrier : State F → Point F → F
  barrier x o =
      let dist = g.sqrt (square (x.px ⊖ o.0) ⊕ square (x.py ⊖ o.1) ⊕ f.lit 1 1000000) in
      let s = cfg.obs_alpha ⊗ (dist ⊖ cfg.obs_r) in
      let penetration = fmax nought (cfg.obs_r ⊖ dist) in
      cfg.w_obs_sigmoid ⊗ f.lit 5 10 ⊗ (unit ⊖ g.tanh (f.lit 5 10 ⊗ s))
      ⊕ cfg.w_obs_sigmoid ⊗ f.lit 2 1 ⊗ square penetration

  -- A cost to which the barriers are added.
  abbrev pub with_barriers : F → State F → List (Point F) → F
  with_barriers c x [] = c
  with_barriers c x (o ∷ os) = with_barriers (c ⊕ barrier x o) x os

  abbrev pub with_jerk : F → Command F → List (Command F) → F
  with_jerk c u [] = c
  with_jerk c u (before ∷ us) = c ⊕ jerk_cost u before

  -- The cost of the steps, to which `before` has the command of the last step, and of the end. The lists
  -- hold the states, the references and the commands that are left.
  unfoldable pub cost_from :
      F → List (Command F) → List (Point F) → List (State F) → List (State F) → List (Command F) → F
  cost_from c before obs (x ∷ xs) (r ∷ rs) (u ∷ us) =
      cost_from (with_barriers (with_jerk (c ⊕ tracking_cost x r ⊕ control_cost u) u before) x obs)
        (u ∷ []) obs xs rs us
  cost_from c before obs (x ∷ xs) (r ∷ rs) [] =
      with_barriers (c ⊕ cfg.q_terminal ⊗ tracking_cost x r) x obs
  cost_from c before obs _ _ _ = c

  -- The objective, of the states after the first and the commands of a horizon.
  unfoldable pub objective : List (Point F) → List (State F) → List (State F) → List (Command F) → F
  objective = cost_from nought []

  -- Each state is the one that the dynamics give from the state before it.
  abbrev pub FollowsDynamics : State F → List (State F) → List (Command F) → Type 0
  FollowsDynamics x [] [] = Unit
  FollowsDynamics x (y ∷ ys) (u ∷ us) = (y ≡ next_state x u) × FollowsDynamics y ys us
  FollowsDynamics x _ _ = ⊥

module _ {F : Type 0} ⦃f : Float F⦄ where
  -- The box of the commands: the robot is never asked to drive backwards.
  pub record IsInBox (vx_max vy_max omega_max : F) (u : Command F) : Type 0 where
    pub vx_low : nought ≼ u.vx
    pub vx_high : u.vx ≼ vx_max
    pub vy_low : negate vy_max ≼ u.vy
    pub vy_high : u.vy ≼ vy_max
    pub wz_low : negate omega_max ≼ u.wz
    pub wz_high : u.wz ≼ omega_max
