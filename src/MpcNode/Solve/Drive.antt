-- ===== src/MpcNode/Solve/Drive.antt =====
-- The part of `_solve_cb` that runs when the robot has a pose, a fresh path and a goal that is not
-- reached: obstacles, security, the tracker's solve, and what is published.
use navigation.Prelude.{
  ℕ, suc, Bool, true, false, ◌&&◌, not, Option, none, some, List, [], ◌∷◌, ◌++◌, if◌then◌else◌, map,
}
use navigation.Float.{Float, ◌⊕◌, ◌⊖◌, ◌⊗◌, at_most, nought}
use navigation.Float.Trig.{Trig}
use navigation.MpcNode.Plane.{Point, Quaternion, distance, yaw_to_quat, wrap_angle}
use navigation.MpcNode.Security.{security_escape}
use navigation.MpcNode.Command.{Command, soft_hold, approach_weight, approach_blend}
use navigation.MpcNode.Command.Limits.{adapt, otherwise}
use navigation.MpcNode.Clusters.{cluster_points}
use navigation.MpcNode.Setpoint.{Pose2d, lookahead, filtered_setpoint}
use navigation.MpcNode.Smoothing.{Spot, Trail, final}
use navigation.MpcNode.Tracking.{Tracks, predict_obs_positions}
use navigation.MpcNode.Node.{NavState, navigating, security, Params, Pose, BodyVelocity, Node}

-- The result of `solve`: the first control of `u_opt`, if it has one, the rows of `x_pred`, and the cost,
-- where `none` is infinity.
pub record Solution (F : Type 0) : Type 0 where
  pub success : Bool
  pub u_first : Option (Command F)
  pub x_pred : Option (List (Pose2d F))
  pub cost : Option F
  pub solve_time_ms : F

-- The tracker: `solve` takes the pose with the velocity, the path, the obstacles, and a heading with its
-- weight in contouring mode; then the reset of `_prev_u` and `_prev_x`, and `update_velocity_limits`.
pub record Tracker (F T : Type 0) : Type 0 where
  pub solve :
      Pose2d F
      → BodyVelocity F
      → Trail (Spot F)
      → Option (List (Point F))
      → Option (F × F)
      → T
      → Solution F × T
  pub clear_warm_start : T → T
  pub update_velocity_limits : F → T → T

-- What a call reads from outside the node: the clock, twice, and the performance counter.
pub record Readings (F : Type 0) : Type 0 where
  pub now : F
  pub now_ros : F
  pub perf : F

-- A pose that is published: position, height and orientation.
abbrev pub Stamped : Type 0 → Type 0
Stamped F = Spot F × Quaternion F

pub record Diagnostics (F : Type 0) : Type 0 where
  pub success : Bool
  pub cost : Option F
  pub solve_time_ms : F
  pub total_solve_ms : F
  pub solve_count : ℕ
  pub fail_count : ℕ
  pub security_mode : Bool
  pub vx_max : F

-- The messages, in the order in which they are published.
pub data Out (F : Type 0) : Type 0 where
  cmd_vel : Command F → Out F
  state : NavState → Out F
  pred_path : List (Stamped F) → Out F
  setpoint_pose : Stamped F → Out F
  diagnostics : Diagnostics F → Out F

module _ {F T : Type 0} ⦃f : Float F⦄ ⦃t : Trig F⦄ (k : Tracker F T) (p : Params F) where
  -- The obstacles, when there are some and their scan is not too old.
  unfoldable pub seen : Readings F → Node F T → Option (List (Point F))
  seen r n =
      let age : F = elim n.last_scan_stamp [ none ↦ nought | some stamp ↦ r.now_ros ⊖ stamp ] in
      elim n.lidar_points [
        | [] ↦ none
        | o ∷ os ↦ if at_most age p.lidar_max_age_sec then some (map (λ a. a.0) (o ∷ os)) else none
      ]

  abbrev zipped : List (Point F) → List ℕ → List (Point F × ℕ)
  zipped (o ∷ os) (c ∷ cs) = (o, c) ∷ zipped os cs
  zipped _ _ = []

  -- The predicted obstacles, and the tracks; the clustering always gives a result. Without obstacles the shown tracks are dropped.
  unfoldable pub predicted :
      Readings F → Option (List (Point F)) → Tracks F → Option (List (Point F)) × Tracks F
  predicted r none s = (none, record s { shown = none })
  predicted r (some os) s =
      let (labels, count) = otherwise ([], 0) (cluster_points p.track.cell os) in
      let (os', s') =
        predict_obs_positions p.track p.predict_sec r.perf (zipped os labels) count s in
      (some os', s')

  -- The path of an escape: from the robot to the target, at the height of the path's end.
  abbrev pub escape_path : Point F → Trail (Spot F) → Option (Point F) → Trail (Spot F)
  escape_path robot path none = path
  escape_path robot path (some target) =
      let z = (final path.0 path.1).1 in ((robot, z), (target, z) ∷ [])

  -- The goal's heading and its weight, for the solver of contouring mode.
  unfoldable pub goal_term : Pose2d F → Option (Pose2d F) → Option (F × F)
  goal_term robot none = none
  goal_term robot (some goal) =
      if p.contouring && p.require_goal_heading
      then elim (approach_weight p.command (distance robot.0 goal.0)) [
        | none ↦ none
        | some beta ↦ some (goal.1, beta ⊗ p.q_goal_yaw)
      ]
      else none

  abbrev pub drop_warm_start : Bool → Node F T → Node F T
  drop_warm_start true n = record n { tracker = k.clear_warm_start n.tracker; setpoint = none }
  drop_warm_start false n = n

  -- The state after the security check, from the modes before and after it.
  abbrev pub guarded_state : Bool → Bool → NavState → NavState
  guarded_state before true s = security
  guarded_state true false s = navigating
  guarded_state false false s = s

  abbrev count_failure : Bool → ℕ → ℕ
  count_failure true n = n
  count_failure false n = suc n

  abbrev limited : Option F → T → T
  limited none s = s
  limited (some v) s = k.update_velocity_limits v s

  -- The command of `_solve_cb` for a solution, with the heading blend of tracking mode.
  unfoldable pub drive_command : Pose2d F → Solution F → Node F T → Command F × Node F T
  drive_command robot s n =
      let u = if s.success then s.u_first else none in
      let held = soft_hold p.command u n.hold in
      let blended : Command F = elim n.goal [
        | none ↦ held.0
        | some goal ↦ elim n.nav_state [
          | navigating ↦
              if not p.contouring && p.require_goal_heading
              then approach_blend p.command (distance robot.0 goal.0)
                  (wrap_angle (goal.1 ⊖ robot.1)) held.0
              else held.0
          | _ ↦ held.0
        ]
      ] in
      (blended, record n { hold = held.1 })

  abbrev stamp_pose : F → Pose2d F → Stamped F
  stamp_pose z (xy, yaw) = ((xy, z), yaw_to_quat yaw)

  -- What a solution publishes, when it has a predicted trajectory.
  unfoldable pub publish_solution :
      Pose F → Trail (Spot F) → Solution F → Node F T → Node F T × List (Out F)
  publish_solution pose path s n = elim s.x_pred [
    | none ↦ (n, [])
    | some rows ↦
        let robot : Pose2d F = (pose.spot.0, pose.yaw) in
        let next = lookahead p.filter robot (final path.0 path.1).0 rows in
        let filtered = filtered_setpoint p.filter n.setpoint next in
        let (cmd, n') = drive_command robot s (record n { setpoint = some filtered }) in
        (
          n',
          Out.pred_path (map (stamp_pose pose.spot.1) rows)
              ∷ Out.setpoint_pose (stamp_pose pose.spot.1 filtered)
              ∷ Out.cmd_vel cmd
              ∷ [],
        )
  ]

  -- The node after the security check, with the path that the solver is given and the obstacles.
  unfoldable pub guarded :
      Readings F
      → Pose F
      → Trail (Spot F)
      → Node F T
      → Node F T × Trail (Spot F) × Option (List (Point F))
  guarded r pose path n =
      let (obs, tracks') = predicted r (seen r n) n.tracks in
      let (guard', target) = security_escape p.checks pose.spot.0 obs n.guard in
      let entered = guard'.mode && not n.guard.mode in
      let n' = record n {
        tracks = tracks';
        guard = guard';
        nav_state = guarded_state n.guard.mode guard'.mode n.nav_state;
      } in
      (drop_warm_start entered n', escape_path pose.spot.0 path target, obs)

  -- The node after the solve, with the counters and the adaptive limit.
  unfoldable pub solved : Solution F × T → Node F T → Node F T
  solved (s, tracker') n =
      let (adaptive', limit) = adapt p.adaptive_enabled p.cfg_vx_max s.success n.adaptive in
      record n {
        tracker = limited limit tracker';
        adaptive = adaptive';
        solve_count = suc n.solve_count;
        fail_count = count_failure s.success n.fail_count;
        total_solve_ms = n.total_solve_ms ⊕ s.solve_time_ms;
      }

  abbrev report : Solution F → Node F T → Out F
  report s n = Out.diagnostics (record {
    success = s.success;
    cost = s.cost;
    solve_time_ms = s.solve_time_ms;
    total_solve_ms = n.total_solve_ms;
    solve_count = n.solve_count;
    fail_count = n.fail_count;
    security_mode = n.guard.mode;
    vx_max = n.adaptive.vx_max;
  })

  unfoldable pub drive : Readings F → Pose F → Trail (Spot F) → Node F T → Node F T × List (Out F)
  drive r pose path n =
      let robot : Pose2d F = (pose.spot.0, pose.yaw) in
      let (n1, path', obs) = guarded r pose path n in
      let result = k.solve robot n1.velocity path' obs (goal_term robot n1.goal) n1.tracker in
      let n2 = solved result n1 in
      let (n3, outs) = publish_solution pose path result.0 n2 in
      (n3, outs ++ (report result.0 n3 ∷ Out.state n3.nav_state ∷ []))
