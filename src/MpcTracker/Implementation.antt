-- ===== src/MpcTracker/Implementation.antt =====
-- The tracker of mpc_tracker.py as the tracker of mpc_node.py in tracking mode.
use navigation.Prelude.{◌≡◌, refl, Option, none, some, List, [], ◌∷◌, map, length}
use navigation.Float.{Float}
use navigation.Float.Trig.{Trig}
use navigation.MpcNode.Plane.{Point}
use navigation.MpcNode.Command.{Command}
use navigation.MpcNode.Setpoint.{Pose2d}
use navigation.MpcNode.Node.{BodyVelocity, Params, Node}
use navigation.MpcNode.Solve.{solve_cb}
use navigation.MpcNode.Solve.Drive.{Solution, Readings}
use navigation.MpcNode.Solve.Gate.{commands_of}
use navigation.MpcNode.Solve.Once.{solve_cb-once}
use navigation.MpcNode.Solve.Drive
use navigation.MpcTracker.{TrackerConfig, State}
use navigation.MpcTracker.Obstacles.{Argsort}
use navigation.MpcTracker.Solve.{Solver, Tracker, MpcResult, solve}

module _ {F : Type 0} ⦃f : Float F⦄ ⦃t : Trig F⦄ where
  abbrev pub state_of : Pose2d F → BodyVelocity F → State F
  state_of robot v = record {
    px = robot.0.0;
    py = robot.0.1;
    yaw = robot.1;
    vx = v.vx_est;
    vy = v.vy_est;
    wz = v.wz_est;
  }

  abbrev pub finite_points : Option (List (Point F)) → Option (List (Option (Point F)))
  finite_points none = none
  finite_points (some os) = some (map (λ o. some o) os)

  abbrev pub first_control : List (Command F) → Option (Command F)
  first_control [] = none
  first_control (u ∷ us) = some u

  -- The fields of a result that the node reads, with the time that the solve took.
  abbrev pub solution : F → MpcResult F → Solution F
  solution ms r = record {
    success = r.success;
    u_first = first_control r.u_opt;
    x_pred = some (map (λ x. ((x.px, x.py), x.yaw)) r.x_pred);
    cost = r.cost;
    solve_time_ms = ms;
  }

  abbrev pub limit_or : F → Option F → F
  limit_or old none = old
  limit_or old (some v) = v

  -- `update_velocity_limits(vx_max=...)`, and the other limits.
  unfoldable pub update_velocity_limits : Option F → Option F → Option F → Tracker F → Tracker F
  update_velocity_limits vx vy wz s = record s {
    vx_max_eff = limit_or s.vx_max_eff vx;
    vy_max_eff = limit_or s.vy_max_eff vy;
    omega_max_eff = limit_or s.omega_max_eff wz;
  }

  abbrev pub mpc_tracker : TrackerConfig F → Argsort F → Solver F → F → Drive.Tracker F (Tracker F)
  mpc_tracker cfg argsort solver ms = record {
    solve = λ robot v path obs goal s.
        let out =
          solve cfg argsort solver (some (state_of robot v)) (map (λ a. a.0) (path.0 ∷ path.1))
            (finite_points obs) s in
        (solution ms out.0, out.1);
    clear_warm_start = λ s. record s { prev = none };
    update_velocity_limits = λ v s. update_velocity_limits (some v) none none s;
  }

  -- The MPC node with the MPC tracker publishes exactly one velocity command at every call of its timer's
  -- callback, whatever IPOPT does and whatever the state.
  pub mpc_node-once :
      (cfg : TrackerConfig F) (argsort : Argsort F) (solver : Solver F) (ms : F) (p : Params F)
      (r : Readings F) (n : Node F (Tracker F))
      → length (commands_of (solve_cb (mpc_tracker cfg argsort solver ms) p r n).1) ≡ 1
  mpc_node-once cfg argsort solver ms p r n =
      solve_cb-once (mpc_tracker cfg argsort solver ms) p r n (λ robot v path obs goal s. refl)
