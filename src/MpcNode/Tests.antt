-- ===== src/MpcNode/Tests.antt =====
-- A node with a small tracker, run on concrete inputs.
use navigation.Prelude.{
  ℕ, suc, ◌≡◌, refl, true, false, Option, none, some, List, [], ◌∷◌, ◌+ℤ◌, ◌-ℤ◌, pos, negsuc,
  length, All, if◌then◌else◌, arith,
}
use navigation.Float.{Millis, millis, negate, milli, Millis-IsOrdered, ◌≼◌, isqrt}
use navigation.MpcNode.Plane.{Point, Quaternion, quat_to_yaw, wrap_angle}
use navigation.MpcNode.Security.{SecurityParams, near_points}
use navigation.MpcNode.Security.Debounce.{watched, called_for, watched-mode}
use navigation.MpcNode.Command.{
  Command, CommandParams, Hold, halt, soft_hold, turn_limit, heading_align,
}
use navigation.MpcNode.Command.Bounds.{
  heading_align-IsCapped, failing, faded, limits, IsLimited, limits-IsLimited,
}
use navigation.MpcNode.Smoothing.{Spot, Numeric, final, distinct, smooth_resample_path}
use navigation.MpcNode.Tracking.{TrackParams, Tracks, predict_obs_positions}
use navigation.MpcNode.Node.{Params, Pose, Node, initial, goal_reached, navigating}
use navigation.MpcNode.Solve.{solve_cb, steer}
use navigation.MpcNode.Solve.Drive.{Tracker, Readings, Solution, drive, publish_solution}
use navigation.MpcNode.Solve.Hold.{IsHeldOn, publish_solution-failing}
use navigation.MpcNode.Solve.Gate.{commands_of, is_holding, IsAllowed, solve_cb-IsAllowed}
use navigation.MpcTracker.Samples.{config, unsorted, never, small_angles}
use navigation.MpcTracker.Solve.Health.{fresh}
use navigation.MpcTracker.Implementation.{mpc_tracker, mpc_node-once}
use navigation.MpcNode.Solve.Latch.{
  Event, tick, odom, goal, run, step, run-is_holding, late-drives, placed,
}
use navigation.MpcNode.Clusters.{cluster_cells}
use navigation.MpcNode.Clusters.Forest.{cluster_cells-ends}
use navigation.MpcNode.Tracking.Confirmed.{ArePredicted, predict-ArePredicted}
use navigation.MpcNode.Smoothing.Endpoints.{IsInterp, smooth_resample_path-HasEnds}
use navigation.MpcNode.Node.Callbacks.{pose_cb}

abbrev command_params : CommandParams Millis
command_params = record {
  heading_kp = milli (pos 1200);
  heading_min_omega = milli (pos 150);
  heading_max_omega = milli (pos 500);
  soft_hold_cycles = 3;
  soft_hold_decay = milli (pos 600);
  align_start_dist = milli (pos 1500);
  reached_radius = milli (pos 300);
  cfg_omega_max = milli (pos 1500);
}

abbrev checks : SecurityParams Millis
checks = record {
  enable = true;
  radius = milli (pos 400);
  escape_radius = milli (pos 800);
  engage_cycles = 2;
  clear_cycles = 3;
}

-- Two sightings of an obstacle, after a clear one.
abbrev seen_twice : List (Point Millis × Option (List (Point Millis)))
seen_twice =
    ((pos 0, pos 0), some ((pos 200, pos 0) ∷ []))
    ∷ ((pos 0, pos 0), some ((pos 300, pos 0) ∷ []))
    ∷ ((pos 0, pos 0), none)
    ∷ []

watched-mode_example : (watched checks seen_twice).mode ≡ called_for 2 3 (true ∷ true ∷ false ∷ [])
unfolding isqrt near_points ◌-ℤ◌
watched-mode_example = watched-mode checks seen_twice (omega arith) (omega arith)

heading_align-IsCapped_example :
    (negate (turn_limit command_params) ≼ heading_align command_params (negsuc 99))
    × (heading_align command_params (negsuc 99) ≼ turn_limit command_params)
heading_align-IsCapped_example = heading_align-IsCapped Millis-IsOrdered command_params (negsuc 99)

abbrev forward : Command Millis
forward = record { vx = pos 500; vy = pos 0; wz = pos 100 }

abbrev new_hold : Hold Millis
new_hold = record { last_good = halt; soft_hold_count = 0 }

limits-IsLimited_example :
    IsLimited {F = Millis} (pos 1000) (limits true (pos 1000) (false ∷ true ∷ []))
limits-IsLimited_example = limits-IsLimited Millis-IsOrdered true (pos 1000) (false ∷ true ∷ [])

abbrev tracked : TrackParams Millis
tracked = record {
  cell = milli (pos 300);
  static_speed = milli (pos 150);
  max_track_speed = milli (pos 2500);
  dir_consistency = milli (pos 500);
}

-- An interpolation at the ends, which holds its value between them.
abbrev held_interp : List Millis → List Millis → Millis → Millis
held_interp [] ys s = pos 0
held_interp (x ∷ xs) [] s = pos 0
held_interp (x ∷ xs) (y ∷ ys) s =
    if millis.leb s x then y else (if millis.leb (final x xs) s then final y ys else y)

abbrev sampling : Numeric Millis
sampling = record {
  has_scipy = false;
  arange = λ stop ds. ds ∷ [];
  spline = held_interp;
  interp = held_interp;
}

abbrev params : Params Millis
params = record {
  contouring = false;
  odom_timeout_sec = milli (pos 500);
  path_timeout_sec = milli (pos 2000);
  lidar_max_age_sec = milli (pos 500);
  max_lidar_range = milli (pos 6000);
  obstacle_z_min = milli (pos 1);
  obstacle_z_max = milli (pos 0);
  vel_filter_alpha = milli (pos 300);
  resample_ds = milli (pos 200);
  predict_sec = milli (pos 1500);
  heading_tol = milli (pos 200);
  dup_goal_xy_tol = milli (pos 50);
  dup_goal_yaw_tol = milli (pos 50);
  require_goal_heading = false;
  q_goal_yaw = milli (pos 40000);
  adaptive_enabled = true;
  cfg_vx_max = milli (pos 1000);
  command = command_params;
  checks = checks;
  filter = record {
    lookahead_dist = milli (pos 500);
    alpha = milli (pos 400);
    max_step = milli (pos 250);
    reset_dist = milli (pos 1500);
  };
  track = tracked;
  numeric = sampling;
}

-- A tracker that always drives forward, and counts its solves.
abbrev eager : Tracker Millis ℕ
eager = record {
  solve = λ robot v path obs goal n. (
    record {
      success = true;
      u_first = some forward;
      x_pred = some (robot ∷ ((pos 900, pos 0), pos 0) ∷ []);
      cost = some (pos 0);
      solve_time_ms = pos 12000;
    },
    suc n,
  );
  clear_warm_start = λ n. n;
  update_velocity_limits = λ v n. n;
}

abbrev at_time : ℕ → Readings Millis
at_time ms = record { now = pos ms; now_ros = pos ms; perf = pos ms }

abbrev origin : Spot Millis
origin = ((pos 0, pos 0), pos 0)

-- A node with a fresh pose at the origin, a path along x, and a goal.
abbrev under_way : Node Millis ℕ
under_way = record (initial params 0) {
  pose = some (record { spot = origin; yaw = pos 0 });
  last_odom_sec = some (pos 100);
  last_path_sec = some (pos 100);
  path = some (origin, ((pos 2000, pos 0), pos 0) ∷ []);
  goal = some ((pos 2000, pos 0), pos 0);
}

solve_cb-IsAllowed_example :
    All
      (IsAllowed params (at_time 200) under_way)
      (commands_of (solve_cb eager params (at_time 200) under_way).1)
solve_cb-IsAllowed_example =
    solve_cb-IsAllowed params eager Millis-IsOrdered (at_time 200) under_way

-- The same node, after a solve and a failed one, and a solution that failed.
abbrev failing_once : Node Millis ℕ
failing_once = record under_way {
  hold = failing command_params 1 (soft_hold command_params (some forward) new_hold).1;
}

abbrev failed_solution : Solution Millis
failed_solution = record {
  success = false;
  u_first = none;
  x_pred = some (((pos 0, pos 0), pos 0) ∷ []);
  cost = none;
  solve_time_ms = pos 12000;
}

abbrev here : Pose Millis
here = record { spot = origin; yaw = pos 0 }

publish_solution-failing_example :
    IsHeldOn eager params here failing_once
      (faded command_params 2 forward)
      (failing command_params 2 (soft_hold command_params (some forward) new_hold).1)
      (publish_solution eager params here (origin, []) failed_solution failing_once)
publish_solution-failing_example =
    publish_solution-failing eager params 1 forward new_hold here (origin, []) failed_solution
      (((pos 0, pos 0), pos 0) ∷ []) failing_once refl refl refl

-- The same node, at a goal that it holds.
abbrev arrived : Node Millis ℕ
arrived = record under_way { nav_state = goal_reached }

abbrev level : Quaternion Millis
level = record { qx = pos 0; qy = pos 0; qz = pos 0; qw = pos 1000 }

-- A tick, a pose far from the goal, and the same goal again.
abbrev quiet : List (Event Millis)
quiet = tick (at_time 200) ∷ odom (pos 300) origin level ∷ goal (pos 2000, pos 0) level ∷ []

run-is_holding_example :
    (is_holding (run eager params quiet arrived).0 ≡ true)
    × All (λ c. c ≡ halt) (commands_of (run eager params quiet arrived).1)
unfolding isqrt quat_to_yaw wrap_angle solve_cb steer run step pose_cb ◌-ℤ◌ ◌+ℤ◌
run-is_holding_example =
    run-is_holding eager params quiet arrived ((refl, refl), (tt, (refl, tt))) refl

late-drives_example :
    solve_cb eager params (at_time 1050) (
      pose_cb params
        (pos 1000)
        origin
        level
        (solve_cb eager params
          (at_time 900)
          (placed ((pos 2000, pos 0), pos 0) goal_reached (origin, []) under_way)).0)
    ≡ drive eager params
        (at_time 1050)
        (record { spot = origin; yaw = quat_to_yaw level })
        (origin, [])
        (placed
          ((pos 2000, pos 0), pos 0)
          navigating
          (origin, [])
          (pose_cb params (pos 1000) origin level under_way))
unfolding isqrt ◌-ℤ◌
late-drives_example =
    late-drives eager params (at_time 900) (at_time 1050) (pos 1000) origin level
      ((pos 2000, pos 0), pos 0) (origin, []) under_way refl refl refl refl

cluster_cells-ends_example :
    (o : List ℕ × ℕ) × (cluster_cells ((pos 0, pos 0) ∷ (pos 1, negsuc 0) ∷ (pos 5, pos 5) ∷ [])
      ≡ some o)
    × (length o.0 ≡ 3)
cluster_cells-ends_example =
    cluster_cells-ends ((pos 0, pos 0) ∷ (pos 1, negsuc 0) ∷ (pos 5, pos 5) ∷ [])

abbrev moving : Tracks Millis
moving = record {
  prev = some (((pos 0, pos 0), (pos 1000, pos 0)) ∷ []);
  prev_time = some (pos 0);
  shown = none;
}

predict-ArePredicted_example :
    ArePredicted tracked
      (pos 1500)
      moving
      (((pos 200, pos 0), 0) ∷ [])
      (predict_obs_positions tracked (pos 1500) (pos 200) (((pos 200, pos 0), 0) ∷ []) 1 moving).0
unfolding isqrt
predict-ArePredicted_example =
    predict-ArePredicted tracked (pos 1500) (pos 200) (((pos 200, pos 0), 0) ∷ []) 1 moving refl

sampling-IsInterp : IsInterp sampling
sampling-IsInterp = record {
  interp_left = λ s x y xs ys h. rw h refl;
  interp_right = λ s x y xs ys h k l. ground (arith, k, l);
}

smooth_resample_path-HasEnds_example :
    (((smooth_resample_path sampling (pos 200) (origin, ((pos 2000, pos 0), pos 0) ∷ [])).0).0
      ≡ (pos 0, pos 0))
    × ((final
          (smooth_resample_path sampling (pos 200) (origin, ((pos 2000, pos 0), pos 0) ∷ [])).0
          (smooth_resample_path sampling (pos 200) (origin, ((pos 2000, pos 0), pos 0) ∷ [])).1).0
        ≡ final origin.0 (distinct origin.0 ((pos 2000, pos 0) ∷ [])))
smooth_resample_path-HasEnds_example =
    smooth_resample_path-HasEnds sampling (pos 200) Millis-IsOrdered origin
      ((pos 2000, pos 0), pos 0) [] sampling-IsInterp

-- A new node with the tracker of mpc_tracker.py, and a solver that never succeeds.
mpc_node-once_example :
    length (
      commands_of
        (solve_cb
          (mpc_tracker config unsorted never (pos 12000))
          params
          (at_time 200)
          (record (initial params (fresh (pos 1000) (pos 500) (pos 1500))) {
            last_odom_sec = some (pos 100);
          })).1)
    ≡ 1
mpc_node-once_example =
    mpc_node-once config unsorted never (pos 12000) params (at_time 200)
      (record (initial params (fresh (pos 1000) (pos 500) (pos 1500))) {
        last_odom_sec = some (pos 100);
      })
