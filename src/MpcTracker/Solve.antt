-- ===== src/MpcTracker/Solve.antt =====
-- `solve` of mpc_tracker.py: the values of the problem's parameters, the warm start, the recovery after
-- failures, and what is kept of a solution. The value that is not finite is `none`; the reference is
-- taken to be finite.
pub mod Health
use navigation.Prelude.{
  ℕ, zero, suc, ◌+◌, Bool, true, false, ◌&&◌, Option, none, some, List, [], ◌∷◌, ◌++◌, length, leb,
  pos, if◌then◌else◌,
}
use navigation.Float.{Float, ◌⊕◌, ◌⊗◌, ◌⊘◌, less, nought, fmax}
use navigation.Float.Trig.{Trig}
use navigation.MpcNode.Plane.{Point}
use navigation.MpcNode.Command.{Command, halt}
use navigation.MpcTracker.{TrackerConfig, State}
use navigation.MpcTracker.Obstacles.{Argsort, select_obs_points, sentinel, repeated}
use navigation.MpcTracker.Reference.{build_reference}

-- Controls with the states that go with them: a warm start, or a solution.
abbrev pub Trajectory : Type 0 → Type 0
Trajectory F = List (Command F) × List (State F)

-- What IPOPT is given.
pub record Problem (F : Type 0) : Type 0 where
  pub x0 : State F
  pub x_ref : List (State F)
  pub obs : List (Point F)
  pub vx_max : F
  pub vy_max : F
  pub omega_max : F
  pub guess : Trajectory F

-- What comes back: whether `solve` raised no exception, the cost when it can be read, and the values when
-- they can be read and none of them is NaN.
pub record Attempt (F : Type 0) : Type 0 where
  pub ipopt_ok : Bool
  pub cost : Option F
  pub values : Option (Trajectory F)

abbrev pub Solver : Type 0 → Type 0
Solver F = Problem F → Attempt F

pub record Tracker (F : Type 0) : Type 0 where
  -- `_prev_u` and `_prev_x`, which are set together
  pub prev : Option (Trajectory F)
  pub vx_max_eff : F
  pub vy_max_eff : F
  pub omega_max_eff : F
  pub last_valid_x0 : Option (State F)
  pub consecutive_failures : ℕ
  pub cost_history : List F

pub record MpcResult (F : Type 0) : Type 0 where
  pub success : Bool
  pub x_pred : List (State F)
  pub u_opt : List (Command F)
  -- `none` is infinity
  pub cost : Option F

module _ {F : Type 0} ⦃f : Float F⦄ where
  abbrev pub at_rest : State F
  at_rest = record { px = nought; py = nought; yaw = nought; vx = nought; vy = nought; wz = nought }

  -- The initial state: the last valid one where it is not finite.
  abbrev pub initial_state : Option (State F) → Option (State F) → State F
  initial_state (some x) valid = x
  initial_state none (some x) = x
  initial_state none none = at_rest

  abbrev pub added : List F → F
  added [] = nought
  added (c ∷ cs) = c ⊕ added cs

  abbrev pub all_but_last : List F → List F
  all_but_last [] = []
  all_but_last (c ∷ []) = []
  all_but_last (c ∷ d ∷ cs) = c ∷ all_but_last (d ∷ cs)

  abbrev pub mean_cost : List F → F
  mean_cost cs = added cs ⊘ f.of_int (pos (length cs))

  abbrev pub drop_first : List F → List F
  drop_first [] = []
  drop_first (c ∷ cs) = cs

  -- The history with a new cost at its end, of eight costs at most.
  unfoldable pub recorded : F → List F → List F
  recorded c cs =
      if leb 9 (length (cs ++ (c ∷ []))) then drop_first (cs ++ (c ∷ [])) else cs ++ (c ∷ [])

  -- The cost is more than five times the mean of the others that are recorded.
  unfoldable pub is_spike : F → List F → Bool
  is_spike c history =
      let avg = mean_cost (all_but_last history) in
      leb 3 (length history) && (less nought avg && less (avg ⊗ f.lit 5 1) c)

-- `np.vstack([a[1:], a[-1:]])`
abbrev pub shifted : {A : Type 0} → List A → List A
shifted [] = []
shifted (a ∷ []) = a ∷ []
shifted (a ∷ b ∷ bs) = b ∷ shifted (b ∷ bs)

abbrev pub guess_from : {A : Type 0} → Option A → A → A
guess_from none cold = cold
guess_from (some warm) cold = warm

module _ {F : Type 0} ⦃f : Float F⦄ ⦃t : Trig F⦄ (cfg : TrackerConfig F) where
  abbrev pub cold_start : List (State F) → Trajectory F
  cold_start x_ref = (repeated cfg.horizon halt, x_ref)

  -- The guess: the shifted last solution, unless warm starts are off, there is none, or three solves have
  -- failed in a row.
  unfoldable pub initial_guess : List (State F) → Tracker F → Trajectory F
  initial_guess x_ref s =
      if leb 3 s.consecutive_failures
      then cold_start x_ref
      else if cfg.warm_start
      then guess_from s.prev (cold_start x_ref)
      else cold_start x_ref

  -- The obstacles of the problem.
  unfoldable pub obstacles : Argsort F → Point F → Option (List (Option (Point F))) → List (Point F)
  obstacles argsort robot none = repeated cfg.max_obs_constraints sentinel
  obstacles argsort robot (some []) = repeated cfg.max_obs_constraints sentinel
  obstacles argsort robot (some (o ∷ os)) = select_obs_points cfg argsort robot (o ∷ os)

  abbrev pub at_least : F → F
  at_least v = fmax v (f.lit 5 100)

  unfoldable pub posed :
      Argsort F
      → State F
      → List (Point F)
      → Option (List (Option (Point F)))
      → Tracker F
      → Problem F
  posed argsort x0 path obs s =
      let x_ref = build_reference cfg x0 path in
      record {
        x0 = x0;
        x_ref = x_ref;
        obs = obstacles argsort (x0.px, x0.py) obs;
        vx_max = at_least s.vx_max_eff;
        vy_max = at_least s.vy_max_eff;
        omega_max = at_least s.omega_max_eff;
        guess = initial_guess x_ref s;
      }

  -- The warm start of the next solve, after a solution of a cost.
  abbrev pub next_start : F → List F → Trajectory F → Option (Trajectory F)
  next_start c history values =
      if is_spike c history then none else some (shifted values.0, shifted values.1)

  -- The tracker after a solution, which starts the next solve.
  abbrev pub after_success : F → Trajectory F → Tracker F → Tracker F
  after_success c values s =
      let history = recorded c s.cost_history in
      record s {
        prev = next_start c history values;
        consecutive_failures = 0;
        cost_history = history;
      }

  abbrev pub after_failure : Tracker F → Tracker F
  after_failure s = record s { prev = none; consecutive_failures = suc s.consecutive_failures }

  abbrev pub failure : Option F → Trajectory F → MpcResult F
  failure cost (us, xs) = record { success = false; x_pred = xs; u_opt = us; cost = cost }

  -- The result and the tracker, from whether IPOPT succeeded, the cost, and the values. A failed solve
  -- still gives its last values, when it has some; without values the reference stands for them.
  unfoldable pub concluded :
      List (State F) → Bool → Option F → Option (Trajectory F) → Tracker F → MpcResult F × Tracker F
  concluded x_ref true (some c) (some values) s = (
    record { success = true; x_pred = values.1; u_opt = values.0; cost = some c },
    after_success c values s,
  )
  concluded x_ref ok cost (some values) s = (failure cost values, after_failure s)
  concluded x_ref ok cost none s = (failure cost (cold_start x_ref), after_failure s)

  -- The robot's state is `none` when it is not finite.
  unfoldable pub solve :
      Argsort F
      → Solver F
      → Option (State F)
      → List (Point F)
      → Option (List (Option (Point F)))
      → Tracker F
      → MpcResult F × Tracker F
  solve argsort solver x path obs s =
      let x0 = initial_state x s.last_valid_x0 in
      let problem = posed argsort x0 path obs s in
      let attempt = solver problem in
      concluded problem.x_ref attempt.ipopt_ok attempt.cost attempt.values
        (record s { last_valid_x0 = some x0 })
