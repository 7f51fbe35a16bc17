-- ===== src/MpcNode/Solve/Latch.antt =====
-- The hold of a goal that is reached, over any sequence of the node's callbacks.
use navigation.Prelude.{
  ◌≡◌, refl, ◌∙◌, ap, sym, true, false, Option, none, some, List, [], ◌∷◌, ◌++◌, All, All-append,
  if◌then◌else◌, if-split, option-split, arith,
}
use mathlib.Core.Path.{subst}
use navigation.Float.{Float, at_most}
use navigation.Float.Trig.{Trig}
use navigation.MpcNode.Plane.{Point, Quaternion, distance, quat_to_yaw}
use navigation.MpcNode.Command.{halt}
use navigation.MpcNode.Setpoint.{Pose2d}
use navigation.MpcNode.Smoothing.{Spot, Trail}
use navigation.MpcNode.Node.{Params, Pose, Node, NavState, goal_reached, stopped, navigating}
use navigation.MpcNode.Node.Callbacks.{pose_cb, goal_cb, lidar_cb, path_cb, is_duplicate}
use navigation.MpcNode.Solve.{is_late, is_reached, steer, solve_cb, follow}
use navigation.MpcNode.Solve.Gate.{commands_of, is_some, is_holding, IsLocalised}
use navigation.MpcNode.Solve.Drive.{Tracker, Readings, Out, drive}

-- What the executor delivers to the node: one callback at a time.
pub data Event (F : Type 0) : Type 0 where
  tick : Readings F → Event F
  odom : F → Spot F → Quaternion F → Event F
  goal : Point F → Quaternion F → Event F
  cloud : F → Option (List (Spot F)) → Event F
  plan : F → List (Spot F) → Event F

commands_of-append :
    {F : Type 0} (os qs : List (Out F)) → commands_of (os ++ qs) ≡ commands_of os ++ commands_of qs
commands_of-append [] qs = refl
commands_of-append (Out.cmd_vel c ∷ os) qs = ap (λ cs. c ∷ cs) (commands_of-append os qs)
commands_of-append (Out.state c ∷ os) qs = commands_of-append os qs
commands_of-append (Out.pred_path c ∷ os) qs = commands_of-append os qs
commands_of-append (Out.setpoint_pose c ∷ os) qs = commands_of-append os qs
commands_of-append (Out.diagnostics c ∷ os) qs = commands_of-append os qs

-- The node with a goal, a state and a path.
abbrev pub placed : {F T : Type 0} → Pose2d F → NavState → Trail (Spot F) → Node F T → Node F T
placed g s path n = record n { goal = some g; nav_state = s; path = some path }

module _ {F T : Type 0} ⦃f : Float F⦄ ⦃t : Trig F⦄ (k : Tracker F T) (p : Params F) where
  unfoldable pub step : Event F → Node F T → Node F T × List (Out F)
  step (tick r) n = solve_cb k p r n
  step (odom now spot q) n = (pose_cb p now spot q n, [])
  step (goal xy q) n = (goal_cb p xy q n, [])
  step (cloud stamp points) n = (lidar_cb p stamp points n, [])
  step (plan now spots) n = (path_cb p now spots n, [])

  unfoldable pub run : List (Event F) → Node F T → Node F T × List (Out F)
  run [] n = (n, [])
  run (e ∷ es) n = let now = step e n in let later = run es now.0 in (later.0, now.1 ++ later.1)

  -- No tick finds the pose missing or late, and no goal differs from the one that the node has.
  abbrev pub IsHarmless : Event F → Node F T → Type 0
  IsHarmless (tick r) n = IsLocalised p r n
  IsHarmless (goal xy q) n = is_duplicate p (xy, quat_to_yaw q) n.goal ≡ true
  IsHarmless _ n = Unit

  abbrev pub IsUndisturbed : List (Event F) → Node F T → Type 0
  IsUndisturbed [] n = Unit
  IsUndisturbed (e ∷ es) n = IsHarmless e n × IsUndisturbed es (step e n).0

  steer_held :
      (r : Readings F) (pose : Pose F) (n : Node F T)
      → is_holding n ≡ true
      → (is_holding (steer k p r pose n).0 ≡ true)
        × All (λ c. c ≡ halt) (commands_of (steer k p r pose n).1)
  unfolding steer
  steer_held r pose n h =
      let P = λ (o : Node F T × List (Out F)).
        (is_holding o.0 ≡ true) × All (λ c. c ≡ halt) (commands_of o.1) in
      option-split P n.goal (λ e. ground (arith, h, e))
        (λ g e.
          if-split P (is_reached n.nav_state) (λ held. (h, (refl, tt)))
            (λ free. ground (arith, h, e, free)))

  tick_held :
      (r : Readings F) (n : Node F T)
      → is_some n.pose ≡ true
      → is_late r.now p.odom_timeout_sec n.last_odom_sec ≡ false
      → is_holding n ≡ true
      → (is_holding (solve_cb k p r n).0 ≡ true)
        × All (λ c. c ≡ halt) (commands_of (solve_cb k p r n).1)
  unfolding solve_cb
  tick_held r n posed fresh h =
      let P = λ (o : Node F T × List (Out F)).
        (is_holding o.0 ≡ true) × All (λ c. c ≡ halt) (commands_of o.1) in
      option-split P n.pose (λ e. ground (arith, posed, e))
        (λ pose e.
          if-split P (is_late r.now p.odom_timeout_sec n.last_odom_sec)
            (λ late. ground (arith, fresh, late)) (λ e. steer_held r pose n h))

  goal_duplicate :
      (xy : Point F) (q : Quaternion F) (n : Node F T)
      → is_duplicate p (xy, quat_to_yaw q) n.goal ≡ true
      → goal_cb p xy q n ≡ n
  unfolding goal_cb
  goal_duplicate xy q n h =
      ap
        (λ b. if b then n else record n { goal = some (xy, quat_to_yaw q); nav_state = navigating })
        h

  step_held :
      (e : Event F) (n : Node F T)
      → IsHarmless e n
      → is_holding n ≡ true
      → (is_holding (step e n).0 ≡ true) × All (λ c. c ≡ halt) (commands_of (step e n).1)
  unfolding step pose_cb lidar_cb path_cb
  step_held (tick r) n (some_pose, fresh) h = tick_held r n some_pose fresh h
  step_held (odom now spot q) n u h = (h, tt)
  step_held (goal xy q) n u h = rw (goal_duplicate xy q n u) (h, tt)
  step_held (cloud stamp none) n u h = (h, tt)
  step_held (cloud stamp (some points)) n u h = (h, tt)
  step_held (plan now []) n u h = (h, tt)
  step_held (plan now (a ∷ spots)) n u h = (h, tt)

  -- Once a goal is held as reached, it stays held over any sequence of callbacks in which no tick finds the
  -- pose missing or late and no goal differs from the one that is held, and every velocity command that
  -- they publish is zero.
  pub run-is_holding :
      (es : List (Event F)) (n : Node F T)
      → IsUndisturbed es n
      → is_holding n ≡ true
      → (is_holding (run es n).0 ≡ true) × All (λ c. c ≡ halt) (commands_of (run es n).1)
  unfolding run
  run-is_holding [] n u h = (h, tt)
  run-is_holding (e ∷ es) n (u, us) h =
      let (h', halted) = step_held e n u h in
      let (h'', later) = run-is_holding es (step e n).0 us h' in
      (
        h'',
        subst (All _) (sym (commands_of-append (step e n).1 _))
            (All-append _ (commands_of (step e n).1) _ halted later),
      )

  stop_late :
      (r : Readings F) (n : Node F T)
      → is_late r.now p.odom_timeout_sec n.last_odom_sec ≡ true
      → (solve_cb k p r n).0 ≡ record n { nav_state = stopped }
  unfolding solve_cb
  stop_late r n h =
      let P = λ (o : Node F T × List (Out F)). o.0 ≡ record n { nav_state = stopped } in
      option-split P n.pose (λ e. refl)
        (λ pose e.
          if-split P (is_late r.now p.odom_timeout_sec n.last_odom_sec) (λ late. refl)
            (λ fresh. ground (arith, h, fresh)))

  steer_far :
      (r : Readings F) (pose : Pose F) (g : Pose2d F) (path : Trail (Spot F)) (n : Node F T)
      → at_most (distance pose.spot.0 g.0) p.command.reached_radius ≡ false
      → is_late r.now p.path_timeout_sec n.last_path_sec ≡ false
      → steer k p r pose (placed g stopped path n)
        ≡ drive k p r pose path (placed g navigating path n)
  unfolding steer follow
  steer_far r pose g path n far fresh = rw (far, fresh) refl

  solve_posed :
      (r : Readings F) (now : F) (spot : Spot F) (q : Quaternion F) (g : Pose2d F)
      (path : Trail (Spot F)) (n : Node F T)
      → is_late r.now p.odom_timeout_sec (some now) ≡ false
      → solve_cb k p r (pose_cb p now spot q (placed g stopped path n))
        ≡ steer k p r
            (record { spot = spot; yaw = quat_to_yaw q })
            (placed g stopped path (pose_cb p now spot q n))
  unfolding solve_cb pose_cb
  solve_posed r now spot q g path n fresh = rw fresh refl

  pose_cb-path :
      (r : Readings F) (now : F) (spot : Spot F) (q : Quaternion F) (n : Node F T)
      → is_late r.now p.path_timeout_sec n.last_path_sec ≡ false
      → is_late r.now p.path_timeout_sec (pose_cb p now spot q n).last_path_sec ≡ false
  unfolding pose_cb
  pose_cb-path r now spot q n h = h

  -- A goal that is held as reached is let go without a new goal: when a tick finds the pose late, a pose
  -- outside the goal's radius then arrives, and the next tick finds pose and path fresh, that tick
  -- navigates along the path.
  pub late-drives :
      (r r' : Readings F) (now : F) (spot : Spot F) (q : Quaternion F) (g : Pose2d F)
      (path : Trail (Spot F)) (n : Node F T)
      → is_late r.now p.odom_timeout_sec n.last_odom_sec ≡ true
      → is_late r'.now p.odom_timeout_sec (some now) ≡ false
      → is_late r'.now p.path_timeout_sec n.last_path_sec ≡ false
      → at_most (distance spot.0 g.0) p.command.reached_radius ≡ false
      → solve_cb k p r' (pose_cb p now spot q (solve_cb k p r (placed g goal_reached path n)).0)
        ≡ drive k p r'
            (record { spot = spot; yaw = quat_to_yaw q })
            path
            (placed g navigating path (pose_cb p now spot q n))
  late-drives r r' now spot q g path n late fresh fresh_path far =
      ap (λ m. solve_cb k p r' (pose_cb p now spot q m))
        (stop_late r (placed g goal_reached path n) late)
      ∙ solve_posed r' now spot q g path n fresh
      ∙ steer_far r' _ g path (pose_cb p now spot q n) far (pose_cb-path r' now spot q n fresh_path)
