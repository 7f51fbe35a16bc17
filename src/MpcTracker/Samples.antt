-- ===== src/MpcTracker/Samples.antt =====
-- A configuration and small solvers, for the tests of mpc_tracker.py and of mpc_node.py.
use navigation.Prelude.{true, false, none, some, [], ◌∷◌, pos}
use navigation.Float.{Millis, millis, milli}
use navigation.Float.Trig.{Trig}
use navigation.MpcTracker.{TrackerConfig}
use navigation.MpcTracker.Obstacles.{Argsort}
use navigation.MpcTracker.Solve.{Solver}

instance abbrev pub small_angles : Trig Millis
small_angles = record {
  sin = λ a. a;
  cos = λ a. milli (pos 1000);
  atan2 = λ y x. y;
  floor = λ a. millis.trunc a;
}

abbrev pub config : TrackerConfig Millis
config = record {
  horizon = 2;
  dt = milli (pos 100);
  tau_v = milli (pos 120);
  tau_w = milli (pos 100);
  v_ref = milli (pos 500);
  q_x = milli (pos 20000);
  q_y = milli (pos 20000);
  q_yaw = milli (pos 500);
  q_terminal = milli (pos 50000);
  r_vx = milli (pos 1000);
  r_vy = milli (pos 1000);
  r_omega = milli (pos 500);
  r_jerk = milli (pos 200);
  w_obs_sigmoid = milli (pos 500000);
  obs_alpha = milli (pos 8000);
  obs_r = milli (pos 800);
  max_obs_constraints = 3;
  obs_check_radius = milli (pos 3000);
  warm_start = true;
}

-- The order of the cloud.
abbrev pub unsorted : Argsort Millis
unsorted [] = []
unsorted (p ∷ ps) = p.0 ∷ unsorted ps

-- A solver that gives its guess back, and one that fails.
abbrev pub agreeing : Solver Millis
agreeing problem = record { ipopt_ok = true; cost = some (pos 1000); values = some problem.guess }

abbrev pub never : Solver Millis
never problem = record { ipopt_ok = false; cost = none; values = none }
