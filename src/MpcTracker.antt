-- ===== src/MpcTracker.antt =====
-- `MPCTracker` of ros2_ws/src/a_star_mpc_planner/a_star_mpc_planner/mpc_tracker.py. The children model its
-- parts: the choice of the obstacle points (Obstacles), the reference trajectory (Reference), the
-- optimisation problem (Problem), and `solve` with its health tracking (Solve), which implements the
-- interface that mpc_node.py uses (Implementation). IPOPT, through CasADi, is a parameter.
pub mod Obstacles
pub mod Reference
pub mod Problem
pub mod Solve
pub mod Implementation
pub mod Samples
mod Tests
use navigation.Prelude.{ℕ, Bool}

pub record TrackerConfig (F : Type 0) : Type 0 where
  pub horizon : ℕ
  pub dt : F
  pub tau_v : F
  pub tau_w : F
  pub v_ref : F
  pub q_x : F
  pub q_y : F
  pub q_yaw : F
  pub q_terminal : F
  pub r_vx : F
  pub r_vy : F
  pub r_omega : F
  pub r_jerk : F
  pub w_obs_sigmoid : F
  pub obs_alpha : F
  pub obs_r : F
  pub max_obs_constraints : ℕ
  pub obs_check_radius : F
  pub warm_start : Bool

-- The state of the robot in the optimisation problem.
pub record State (F : Type 0) : Type 0 where
  pub px : F
  pub py : F
  pub yaw : F
  pub vx : F
  pub vy : F
  pub wz : F
