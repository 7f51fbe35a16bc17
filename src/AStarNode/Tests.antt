-- ===== src/AStarNode/Tests.antt =====
-- A replan on an external grid, the room of `AStar.Tests`.
use navigation.Prelude.{◌≡◌, refl, true, false, none, some, [], ◌∷◌, ℤ, pos, ◌+ℤ◌, ◌-ℤ◌}
use navigation.Float.{Millis, millis, milli, nought, isqrt}
use navigation.Grid.{world_to_index, index_to_world}
use navigation.AStar.{sorted_queue, insert_sorted, precedes, is_free, a_star, cell_cost, heuristic}
use navigation.AStar.Tests.{planner, room}
use navigation.Plan.{shortcut_path, nearest_free, ray_grid_boundary, plan, plan_path}
use navigation.Plan
use navigation.SlamFusion.{Transform}
use navigation.GaussianGrid.{init}
use navigation.AStarNode.{Params, Node}
use navigation.AStarNode.Replan.{Numeric, Out, done, route, replan_external, replan_cb}
use navigation.AStarNode.Replan.Routes.{AllJustified, replan_cb-AllJustified}

abbrev m : ℤ → Millis
m = milli

abbrev lib : Numeric Millis
lib = record {
  cos = λ x. milli (pos 1000);
  sin = λ x. nought;
  floor = millis.trunc;
  exp = λ x. x;
  edt = λ n free c. nought;
}

abbrev params : Params Millis
params = record {
  planner = planner;
  external = true;
  goal_reached_radius = m (pos 20);
  duplicate_goal_xy_tolerance = m (pos 50);
  duplicate_goal_z_tolerance = m (pos 50);
  max_lidar_range = m (pos 8000);
  ground_removal_en = false;
  grid_reso = m (pos 100);
  ground_segment_height = m (pos 150);
  external_costmap_max_age = m (pos 1500);
  follow_global_path = true;
  global_path_max_age = m (pos 3000);
  global_carrot_dist = m (pos 2000);
  enable_slam_map = false;
  slam = record {
    slam_map_max_age = m (pos 2000);
    slam_map_occ_thr = pos 50;
    slam_map_unknown_obstacle = false;
    grid_half_width = m (pos 5000);
    planning_height = m (pos 300);
  };
  enable_dlio_map = false;
  dlio_map_max_age = m (pos 2000);
  dlio_map_z_above = m (pos 2000);
}

abbrev node : Node Millis
node = record {
  pose = some (m (pos 50), m (pos 50), m (pos 0));
  goal = some (m (pos 2000), m (pos 50), m (pos 700));
  goal_reached = false;
  lidar_points = none;
  grid =
      init (m (pos 100)) (m (pos 5000)) nought (m (pos 2000)) (m (pos 150)) true (m (pos 350))
        (m (pos 700)) (m (pos 450)) false false;
  memory = record {
    reso = m (pos 250);
    decay_sec = m (pos 30000);
    max_cells = 2;
    obstacle_height = m (pos 300);
    entries = [];
  };
  slam_map = none;
  dlio_map = none;
  external_grid = some (room, m (pos 1000));
  global_path = none;
}

abbrev transform : Transform Millis
transform = record { dx = nought; dy = nought; yaw = nought }

-- The way round the wall, and its last waypoint, at the height of the goal.
run :
    replan_cb lib params (sorted_queue precedes) (m (pos 1200)) transform node
    ≡ done node (
        Out.path
          ((m (pos 0), m (pos 0))
            ∷ (m (pos 100), m (pos 200))
            ∷ (m (pos 200), m (pos 100))
            ∷ (m (pos 200), m (pos 0))
            ∷ [])
          (m (pos 700))
        ∷ Out.local_goal (m (pos 200), m (pos 0)) (m (pos 700))
        ∷ [])
unfolding replan_cb replan_external route isqrt plan world_to_index index_to_world Plan.local_goal
    ray_grid_boundary nearest_free plan_path a_star insert_sorted is_free cell_cost heuristic
    shortcut_path ◌-ℤ◌ ◌+ℤ◌
run = refl

replan_cb-AllJustified_example :
    AllJustified lib params
      (sorted_queue precedes)
      (m (pos 1200))
      transform
      node
      (replan_cb lib params (sorted_queue precedes) (m (pos 1200)) transform node)
replan_cb-AllJustified_example =
    replan_cb-AllJustified lib params (sorted_queue precedes) (m (pos 1200)) transform node
