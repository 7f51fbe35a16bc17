-- ===== src/MpcNode/Solve.antt =====
-- `_solve_cb` of mpc_node.py, the timer's callback. The tracker, whose solver is not part of the
-- repository, is a parameter. The markers for the display and the log lines are left out.
pub mod Drive
pub mod Gate
pub mod Once
pub mod Hold
pub mod Latch
use navigation.Prelude.{
  ℕ, suc, Bool, true, false, ◌&&◌, not, Option, none, some, List, [], ◌∷◌, if◌then◌else◌, map,
}
use navigation.Float.{Float, ◌⊕◌, ◌⊖◌, ◌⊗◌, at_most, less, nought}
use navigation.Float.Trig.{Trig}
use navigation.MpcNode.Plane.{Point, distance, absolute, wrap_angle}
use navigation.MpcNode.Command.{Command, halt, heading_align}
use navigation.MpcNode.Setpoint.{Pose2d}
use navigation.MpcNode.Smoothing.{Spot, Trail}
use navigation.MpcNode.Node.{
  NavState, navigating, aligning, goal_reached, security, stopped, Params, Pose, Node,
}
use navigation.MpcNode.Solve.Drive.{Tracker, Readings, Out, Out.cmd_vel, Out.state, drive}

abbrev pub is_reached : NavState → Bool
is_reached goal_reached = true
is_reached _ = false

module _ {F : Type 0} ⦃f : Float F⦄ where
  -- Whether a time is missing or too long ago.
  abbrev pub is_late : F → F → Option F → Bool
  is_late now timeout none = true
  is_late now timeout (some sec) = less timeout (now ⊖ sec)

  -- A state that replaces all but the state of security, when there is a goal.
  abbrev pub underway : Option (Pose2d F) → NavState → NavState
  underway none s = s
  underway (some goal) security = security
  underway (some goal) _ = navigating

module _ {F T : Type 0} ⦃f : Float F⦄ ⦃t : Trig F⦄ (k : Tracker F T) (p : Params F) where
  -- The warm start and the filter of the setpoint are dropped.
  abbrev pub cleared : NavState → Node F T → Node F T
  cleared s n = record n { nav_state = s; tracker = k.clear_warm_start n.tracker; setpoint = none }

  -- With a pose, and with no goal or a goal that is not reached.
  unfoldable pub follow : Readings F → Pose F → Node F T → Node F T × List (Out F)
  follow r pose n = elim n.path [
    | none ↦ (record n { nav_state = stopped }, Out.cmd_vel halt ∷ Out.state stopped ∷ [])
    | some path ↦
        if is_late r.now p.path_timeout_sec n.last_path_sec
        then (record n { nav_state = stopped }, Out.cmd_vel halt ∷ Out.state stopped ∷ [])
        else drive k p r pose path (record n { nav_state = underway n.goal n.nav_state })
  ]

  -- Within the radius of the goal: turn to its heading, or stop and hold.
  unfoldable pub arrive : Pose F → Pose2d F → Node F T → Node F T × List (Out F)
  arrive pose goal n =
      let yaw_err = wrap_angle (goal.1 ⊖ pose.yaw) in
      let turn : Command F = record {
        vx = nought;
        vy = nought;
        wz = heading_align p.command yaw_err;
      } in
      if p.require_goal_heading && less p.heading_tol (absolute yaw_err)
      then (cleared aligning n, Out.cmd_vel turn ∷ Out.state aligning ∷ [])
      else (cleared goal_reached n, Out.cmd_vel halt ∷ Out.state goal_reached ∷ [])

  -- With a pose that is fresh.
  unfoldable pub steer : Readings F → Pose F → Node F T → Node F T × List (Out F)
  steer r pose n = elim n.goal [
    | none ↦ follow r pose n
    | some goal ↦
        if is_reached n.nav_state
        then (n, Out.cmd_vel halt ∷ Out.state n.nav_state ∷ [])
        else if at_most (distance pose.spot.0 goal.0) p.command.reached_radius
        then arrive pose goal n
        else follow r pose n
  ]

  unfoldable pub solve_cb : Readings F → Node F T → Node F T × List (Out F)
  solve_cb r n = elim n.pose [
    | none ↦ (record n { nav_state = stopped }, Out.cmd_vel halt ∷ [])
    | some pose ↦
        if is_late r.now p.odom_timeout_sec n.last_odom_sec
        then (record n { nav_state = stopped }, Out.cmd_vel halt ∷ [])
        else steer r pose n
  ]
