-- ===== src/MpcNode/Node.antt =====
-- The state of `MPCNode` in mpc_node.py, with the callbacks that take the pose, the goal, the obstacle
-- cloud and the path. The nanosecond clock is read as seconds; `T` is the state of the tracker.
pub mod Callbacks
use navigation.Prelude.{ℕ, Bool, Option, none, List, []}
use navigation.Float.{Float, nought}
use navigation.MpcNode.Plane.{Point}
use navigation.MpcNode.Security.{Security, SecurityParams, calm}
use navigation.MpcNode.Command.{CommandParams, Hold, halt}
use navigation.MpcNode.Command.Limits.{Adaptive}
use navigation.MpcNode.Setpoint.{Pose2d, SetpointParams}
use navigation.MpcNode.Smoothing.{Spot, Trail, Numeric}
use navigation.MpcNode.Tracking.{TrackParams, Tracks}

pub data NavState : Type 0 where
  idle navigating aligning goal_reached security stopped : NavState

pub record Params (F : Type 0) : Type 0 where
  pub contouring : Bool
  pub odom_timeout_sec : F
  pub path_timeout_sec : F
  pub lidar_max_age_sec : F
  pub max_lidar_range : F
  pub obstacle_z_min : F
  pub obstacle_z_max : F
  pub vel_filter_alpha : F
  pub resample_ds : F
  -- `_obs_predict_frac * _cfg.N * _cfg.dt`
  pub predict_sec : F
  pub heading_tol : F
  pub dup_goal_xy_tol : F
  pub dup_goal_yaw_tol : F
  pub require_goal_heading : Bool
  pub q_goal_yaw : F
  pub adaptive_enabled : Bool
  pub cfg_vx_max : F
  pub command : CommandParams F
  pub checks : SecurityParams F
  pub filter : SetpointParams F
  pub track : TrackParams F
  pub numeric : Numeric F

-- The pose that was received: the position with its height, and the yaw.
pub record Pose (F : Type 0) : Type 0 where
  pub spot : Spot F
  pub yaw : F

-- `_vx_est`, `_vy_est`, `_wz_est`
pub record BodyVelocity (F : Type 0) : Type 0 where
  pub vx_est : F
  pub vy_est : F
  pub wz_est : F

pub record Node (F T : Type 0) : Type 0 where
  pub pose : Option (Pose F)
  -- `_prev_pose_sec`, `_prev_pose_xy` and `_prev_pose_yaw`, which are set together
  pub prev_pose : Option (F × Pose2d F)
  pub velocity : BodyVelocity F
  pub last_odom_sec : Option F
  pub last_path_sec : Option F
  -- `_goal_xy` and `_goal_yaw`, which are set together
  pub goal : Option (Pose2d F)
  pub nav_state : NavState
  pub path : Option (Trail (Spot F))
  pub lidar_points : List (Spot F)
  pub last_scan_stamp : Option F
  -- `_setpoint_filtered_xy` and `_setpoint_filtered_yaw`, which are set together
  pub setpoint : Option (Pose2d F)
  pub guard : Security
  pub tracks : Tracks F
  pub hold : Hold F
  pub adaptive : Adaptive F
  pub solve_count : ℕ
  pub fail_count : ℕ
  pub total_solve_ms : F
  pub tracker : T

module _ {F : Type 0} ⦃f : Float F⦄ where
  -- The state that `__init__` leaves, with a new tracker.
  abbrev pub initial : {T : Type 0} → Params F → T → Node F T
  initial p t = record {
    pose = none;
    prev_pose = none;
    velocity = record { vx_est = nought; vy_est = nought; wz_est = nought };
    last_odom_sec = none;
    last_path_sec = none;
    goal = none;
    nav_state = idle;
    path = none;
    lidar_points = [];
    last_scan_stamp = none;
    setpoint = none;
    guard = calm;
    tracks = record { prev = none; prev_time = none; shown = none };
    hold = record { last_good = halt; soft_hold_count = 0 };
    adaptive = record { vx_max = p.cfg_vx_max; recent = [] };
    solve_count = 0;
    fail_count = 0;
    total_solve_ms = nought;
    tracker = t;
  }
