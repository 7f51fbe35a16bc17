-- ===== src/MpcNode/Solve/Once.antt =====
-- How many velocity commands the timer's callback publishes.
use navigation.Prelude.{
  ◌≡◌, refl, ◌∙◌, true, Option, List, [], ◌∷◌, ◌++◌, length, if-split, option-split, arith, ◌&&◌,
}
use navigation.Float.{Float, ◌⊖◌, less, at_most}
use navigation.Float.Trig.{Trig}
use navigation.MpcNode.Plane.{Point, distance, wrap_angle, absolute}
use navigation.MpcNode.Setpoint.{Pose2d}
use navigation.MpcNode.Smoothing.{Spot, Trail}
use navigation.MpcNode.Node.{Params, Pose, BodyVelocity, Node, NavState}
use navigation.MpcNode.Solve.{is_late, is_reached, follow, arrive, steer, solve_cb}
use navigation.MpcNode.Solve.Gate.{commands_of, is_some}
use navigation.MpcNode.Solve.Drive.{
  Tracker, Readings, Solution, Diagnostics, Out, publish_solution, guarded, solved, goal_term,
  drive,
}

commands_of-report :
    {F : Type 0} (os : List (Out F)) (d : Diagnostics F) (s : NavState)
    → length (commands_of (os ++ (Out.diagnostics d ∷ Out.state s ∷ []))) ≡ length (commands_of os)
commands_of-report [] d s = refl
commands_of-report (Out.cmd_vel c ∷ os) d s = omega (arith, commands_of-report os d s)
commands_of-report (Out.state c ∷ os) d s = commands_of-report os d s
commands_of-report (Out.pred_path c ∷ os) d s = commands_of-report os d s
commands_of-report (Out.setpoint_pose c ∷ os) d s = commands_of-report os d s
commands_of-report (Out.diagnostics c ∷ os) d s = commands_of-report os d s

module _ {F T : Type 0} ⦃f : Float F⦄ ⦃t : Trig F⦄ (k : Tracker F T) (p : Params F) where
  -- The solver always gives a predicted trajectory.
  abbrev pub IsPredicting : Type 0
  IsPredicting =
      (robot : Pose2d F) (v : BodyVelocity F) (path : Trail (Spot F))
      (obs : Option (List (Point F))) (goal : Option (F × F)) (s : T)
      → is_some (k.solve robot v path obs goal s).0.x_pred ≡ true

  abbrev IsOne : Node F T × List (Out F) → Type 0
  IsOne o = length (commands_of o.1) ≡ 1

  publish_solution-IsOne :
      (pose : Pose F) (path : Trail (Spot F)) (s : Solution F) (n : Node F T)
      → is_some s.x_pred ≡ true
      → IsOne (publish_solution k p pose path s n)
  unfolding publish_solution
  publish_solution-IsOne pose path s n h =
      option-split IsOne s.x_pred (λ e. ground (arith, h, e)) (λ rows e. refl)

  drive-IsOne :
      (r : Readings F) (pose : Pose F) (path : Trail (Spot F)) (n : Node F T)
      → IsPredicting
      → IsOne (drive k p r pose path n)
  unfolding drive
  drive-IsOne r pose path n h =
      let (n1, path', obs) = guarded k p r pose path n in
      let result =
        k.solve (pose.spot.0, pose.yaw) n1.velocity path' obs
          (goal_term k p (pose.spot.0, pose.yaw) n1.goal) n1.tracker in
      commands_of-report (publish_solution k p pose path result.0 (solved k p result n1)).1 _ _
      ∙ publish_solution-IsOne pose path result.0 (solved k p result n1) (h _ _ _ _ _ _)

  arrive-IsOne : (pose : Pose F) (goal : Pose2d F) (n : Node F T) → IsOne (arrive k p pose goal n)
  unfolding arrive
  arrive-IsOne pose goal n =
      if-split IsOne
        (p.require_goal_heading && less p.heading_tol (absolute (wrap_angle (goal.1 ⊖ pose.yaw))))
        (λ e. refl) (λ e. refl)

  follow-IsOne :
      (r : Readings F) (pose : Pose F) (n : Node F T) → IsPredicting → IsOne (follow k p r pose n)
  unfolding follow
  follow-IsOne r pose n h =
      option-split IsOne n.path (λ e. refl)
        (λ path e.
          if-split IsOne (is_late r.now p.path_timeout_sec n.last_path_sec) (λ late. refl)
            (λ fresh. drive-IsOne r pose path _ h))

  steer-IsOne :
      (r : Readings F) (pose : Pose F) (n : Node F T) → IsPredicting → IsOne (steer k p r pose n)
  unfolding steer
  steer-IsOne r pose n h =
      option-split IsOne n.goal (λ e. follow-IsOne r pose n h)
        (λ goal e.
          if-split IsOne (is_reached n.nav_state) (λ held. refl)
            (λ free.
              if-split IsOne (at_most (distance pose.spot.0 goal.0) p.command.reached_radius)
                (λ near. arrive-IsOne pose goal n) (λ far. follow-IsOne r pose n h)))

  -- With a tracker whose solutions always have a predicted trajectory, every call of the timer's callback
  -- publishes exactly one velocity command, whatever the state: the robot is never left to coast.
  pub solve_cb-once :
      (r : Readings F) (n : Node F T) → IsPredicting → length (commands_of (solve_cb k p r n).1) ≡ 1
  unfolding solve_cb
  solve_cb-once r n h =
      option-split IsOne n.pose (λ e. refl)
        (λ pose e.
          if-split IsOne (is_late r.now p.odom_timeout_sec n.last_odom_sec) (λ late. refl)
            (λ fresh. steer-IsOne r pose n h))
