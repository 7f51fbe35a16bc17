-- ===== src/AStar/Tests.antt =====
-- Runs of the search on a grid of three by three cells.
use navigation.Prelude.{◌≡◌, refl, none, [], ◌∷◌, pos, if◌then◌else◌, ◌||◌, ◌+ℤ◌, ◌-ℤ◌}
use navigation.Float.{Millis, millis, milli, isqrt}
use navigation.Grid.{Cell, GridMap, inside}
use navigation.AStar.{
  Planner, sorted_queue, sorted_queue-IsQueue, precedes, found, no_path, a_star, eq_cell, is_free,
  insert_sorted, cell_cost, heuristic,
}
use navigation.AStar.Search.{Settles, a_star-Settles}

abbrev pub planner : Planner Millis
planner = record {
  obstacle_threshold = milli (pos 500);
  obstacle_cost_weight = milli (pos 10000);
  step_over_height = milli (pos 80);
  step_over_cost_scale = milli (pos 250);
}

-- # marks a blocked cell, with x to the right and y upwards:
-- . . .
-- . # .
-- . # .
abbrev pub wall : Cell → Millis
wall c =
    if eq_cell c (pos 1, pos 0) || eq_cell c (pos 1, pos 1) then milli (pos 1000) else milli (pos 0)

abbrev pub room : GridMap Millis
room = record {
  gmap = wall;
  hmap = none;
  cells = 3;
  reso = milli (pos 100);
  minx = milli (pos 0);
  miny = milli (pos 0);
}

-- The way round the wall does not cut its corners.
round_the_wall :
    a_star planner room (sorted_queue precedes) (pos 2, pos 0) (pos 0, pos 0)
    ≡ found (
        (pos 0, pos 0)
        ∷ (pos 0, pos 1)
        ∷ (pos 0, pos 2)
        ∷ (pos 1, pos 2)
        ∷ (pos 2, pos 2)
        ∷ (pos 2, pos 1)
        ∷ (pos 2, pos 0)
        ∷ [])
unfolding a_star insert_sorted isqrt cell_cost heuristic is_free ◌+ℤ◌ ◌-ℤ◌
round_the_wall = refl

into_the_wall : a_star planner room (sorted_queue precedes) (pos 1, pos 1) (pos 0, pos 0) ≡ no_path
unfolding a_star insert_sorted isqrt cell_cost heuristic is_free ◌+ℤ◌ ◌-ℤ◌
into_the_wall = refl

a_star-Settles_example :
    Settles planner room
      (pos 0, pos 0)
      (pos 2, pos 0)
      (a_star planner room (sorted_queue precedes) (pos 2, pos 0) (pos 0, pos 0))
unfolding inside
a_star-Settles_example =
    a_star-Settles planner room (pos 0, pos 0) (pos 2, pos 0) (sorted_queue precedes)
      (sorted_queue-IsQueue precedes) refl
