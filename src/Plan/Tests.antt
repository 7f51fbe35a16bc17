-- ===== src/Plan/Tests.antt =====
-- Runs of the planner's parts on the room of `AStar.Tests`.
use navigation.Prelude.{
  All, ◌≡◌, refl, Bool, not, some, [], ◌∷◌, List, pos, arith, ◌∈◌, length, ◌≤◌, ◌+ℤ◌, ◌-ℤ◌,
}
use navigation.Float.{millis, milli, isqrt}
use navigation.Grid.{Cell, inside, world_to_index, index_to_world}
use navigation.AStar.{
  sorted_queue, sorted_queue-IsQueue, insert_sorted, precedes, is_free, a_star, cell_cost,
  heuristic, eq_cell,
}
use navigation.AStar.Moves.{Move}
use navigation.AStar.Tests.{planner, room}
use navigation.Plan.{
  line_of_sight, shortcut_path, nearest_free, local_goal, ray_grid_boundary, plan, waypoints,
  plan_path,
}
use navigation.Plan.Sight.{Sees, line_of_sight-Sees}
use navigation.Plan.Shortcut.{Legs, shortcut_path-Legs}
use navigation.Plan.Nearest.{Finds, nearest_free-Finds}
use navigation.Plan.Route.{Plans, plan-Plans, local_goal-Finds}

abbrev free : Cell → Bool
free = is_free planner room

-- The goal lies beyond the grid, to the right. The second leg is a shortcut past the blocked cell (1, 1).
run :
    plan planner
      (sorted_queue precedes)
      (some room)
      (milli (pos 50), milli (pos 50))
      (milli (pos 2000), milli (pos 50))
    ≡ waypoints (
        (milli (pos 0), milli (pos 0))
        ∷ (milli (pos 100), milli (pos 200))
        ∷ (milli (pos 200), milli (pos 100))
        ∷ (milli (pos 200), milli (pos 0))
        ∷ [])
unfolding plan world_to_index index_to_world local_goal ray_grid_boundary nearest_free plan_path
    a_star insert_sorted isqrt is_free cell_cost heuristic shortcut_path ◌-ℤ◌ ◌+ℤ◌
run = refl

line_of_sight-Sees_example :
    Sees free (pos 0, pos 0) (pos 2, pos 1) (line_of_sight free (pos 0, pos 0) (pos 2, pos 1))
line_of_sight-Sees_example = line_of_sight-Sees free (pos 0, pos 0) (pos 2, pos 1)

abbrev around : List Cell
around = (pos 0, pos 0) ∷ (pos 0, pos 1) ∷ (pos 0, pos 2) ∷ (pos 1, pos 2) ∷ []

up : Move free (pos 0, pos 0) (pos 0, pos 1)
unfolding is_free ◌+ℤ◌
up = ground arith

on : Move free (pos 0, pos 1) (pos 0, pos 2)
unfolding is_free ◌+ℤ◌
on = ground arith

over : Move free (pos 0, pos 2) (pos 1, pos 2)
unfolding is_free ◌+ℤ◌
over = ground arith

shortcut_path-Legs_example :
    Legs free (pos 0, pos 0) (pos 1, pos 2) (shortcut_path free around)
    × All (λ c. c ∈ around) (shortcut_path free around)
    × (length (shortcut_path free around) ≤ length around)
shortcut_path-Legs_example =
    shortcut_path-Legs free (pos 0, pos 0) (pos 1, pos 2) around
      (refl, up, (refl, on, (refl, over, (refl, refl))))

nearest_free-Finds_example : Finds free 3 (nearest_free planner room (pos 1, pos 0))
unfolding inside
nearest_free-Finds_example = nearest_free-Finds planner room (pos 1, pos 0) refl

local_goal-Finds_example :
    Finds free 3 (local_goal planner room (pos 0, pos 0) (milli (pos 2000)) (milli (pos 50)))
local_goal-Finds_example =
    local_goal-Finds planner room (pos 0, pos 0) (milli (pos 2000)) (milli (pos 50)) (omega arith)

plan-Plans_example :
    Plans planner
      (sorted_queue precedes)
      (sorted_queue-IsQueue precedes)
      room
      (milli (pos 50), milli (pos 50))
      (milli (pos 2000), milli (pos 50))
      (plan planner
        (sorted_queue precedes)
        (some room)
        (milli (pos 50), milli (pos 50))
        (milli (pos 2000), milli (pos 50)))
plan-Plans_example =
    plan-Plans planner (sorted_queue precedes) (sorted_queue-IsQueue precedes) room
      (milli (pos 50), milli (pos 50)) (milli (pos 2000), milli (pos 50))

-- Every cell but (0, 1).
abbrev but_one : Cell → Bool
but_one c = not (eq_cell c (pos 0, pos 1))
