-- ===== src/MpcTracker/Tests.antt =====
-- A tracker with small solvers, run on concrete inputs.
use navigation.Prelude.{
  ◌≡◌, refl, ap, true, Option, none, some, List, [], ◌∷◌, ◌∈◌, inl, inr, All, pos, length,
}
use navigation.Float.{Millis, millis, isqrt}
use navigation.MpcNode.Plane.{Point}
use navigation.MpcTracker.Obstacles.{IsSelected, select_obs_points, select_obs_points-AllSelected}
use navigation.MpcTracker.Solve.{Solver, at_rest, initial_guess, cold_start, concluded, solve}
use navigation.MpcTracker.Samples.{config, unsorted, agreeing, never, small_angles}
use navigation.MpcTracker.Solve.Health.{
  Call, fresh, session, IsHealthy, session-IsHealthy, session-cold_start,
}

unsorted_members :
    (o : Point Millis) (ps : List (Point Millis × Millis))
    → o ∈ unsorted ps
    → (d : Millis) × ((o, d) ∈ ps)
unsorted_members o [] m = absurd m
unsorted_members o ((q, d) ∷ ps) (inl e) = (d, inl (ap (λ x. (x, d)) e))
unsorted_members o ((q, d) ∷ ps) (inr m) = let (d', m') = unsorted_members o ps m in (d', inr m')

abbrev cloud : List (Option (Point Millis))
cloud = some (pos 1000, pos 0) ∷ none ∷ some (pos 9000, pos 0) ∷ []

select_obs_points-AllSelected_example :
    (length (select_obs_points config unsorted (pos 0, pos 0) cloud) ≡ 3)
    × All
        (IsSelected config (pos 0, pos 0) cloud)
        (select_obs_points config unsorted (pos 0, pos 0) cloud)
select_obs_points-AllSelected_example =
    select_obs_points-AllSelected config unsorted (pos 0, pos 0) cloud
      (record { same_members = unsorted_members })

abbrev call_of : Solver Millis → Call Millis
call_of solver = record {
  argsort = unsorted;
  solver = solver;
  robot_state = some at_rest;
  path = (pos 0, pos 0) ∷ (pos 1000, pos 0) ∷ [];
  obs = some cloud;
}

abbrev calls : List (Call Millis)
calls = call_of never ∷ call_of agreeing ∷ []

session-IsHealthy_example :
    IsHealthy
      (session config (fresh (pos 1000) (pos 500) (pos 1500)) calls).1
      (session config (fresh (pos 1000) (pos 500) (pos 1500)) calls).0
session-IsHealthy_example = session-IsHealthy config (pos 1000) (pos 500) (pos 1500) calls

session-cold_start_example :
    initial_guess config
      (at_rest ∷ [])
      (session config (fresh (pos 1000) (pos 500) (pos 1500)) calls).0
    ≡ cold_start config (at_rest ∷ [])
unfolding isqrt session solve concluded
session-cold_start_example =
    session-cold_start config (pos 1000) (pos 500) (pos 1500) calls (true ∷ []) (at_rest ∷ []) refl
