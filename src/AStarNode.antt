-- ===== src/AStarNode.antt =====
-- `AStarNode` of ros2_ws/src/a_star_mpc_planner/a_star_mpc_planner/a_star_node.py: the state and the
-- callbacks that store messages, with the choice of the target (Carrot), the removal of the ground plane
-- (Ground), and the timer's callback (Replan). The transform buffer, the clock and the random choices are
-- inputs; what is published for the display, and log lines, are left out.
pub mod Carrot
pub mod Ground
pub mod Replan
mod Tests
use navigation.Prelude.{
  ℕ, Bool, true, false, ◌&&◌, Option, none, some, List, [], ◌∷◌, if◌then◌else◌,
}
use navigation.Float.{Float, ◌⊖◌, ◌⊗◌, at_most, less, nought}
use navigation.Grid.{GridMap}
use navigation.AStar.{Planner}
use navigation.ExternalGrid.{Parsed, malformed, parsed, parse_costmap_raw}
use navigation.PersistentMap.{PersistentMap}
use navigation.SlamFusion.{OccupancyGrid, Settings}
use navigation.GaussianGrid.{GaussianGrid, Point3}
use navigation.MpcNode.Plane.{Point, distance, absolute}

pub record Params (F : Type 0) : Type 0 where
  pub planner : Planner F
  -- `_costmap_backend == 'external_grid'`
  pub external : Bool
  pub goal_reached_radius : F
  pub duplicate_goal_xy_tolerance : F
  pub duplicate_goal_z_tolerance : F
  pub max_lidar_range : F
  pub ground_removal_en : Bool
  pub grid_reso : F
  pub ground_segment_height : F
  pub external_costmap_max_age : F
  pub follow_global_path : Bool
  pub global_path_max_age : F
  pub global_carrot_dist : F
  pub enable_slam_map : Bool
  pub slam : Settings F
  pub enable_dlio_map : Bool
  pub dlio_map_max_age : F
  pub dlio_map_z_above : F

pub record Node (F : Type 0) : Type 0 where
  pub pose : Option (Point3 F)
  -- `_goal`, when `_goal_initialized`
  pub goal : Option (Point3 F)
  pub goal_reached : Bool
  pub lidar_points : Option (List (Point3 F))
  pub grid : GaussianGrid F
  pub memory : PersistentMap F
  -- a message with the time at which it came
  pub slam_map : Option (OccupancyGrid F × F)
  pub dlio_map : Option (List (Point3 F) × F)
  pub external_grid : Option (GridMap F × F)
  pub global_path : Option (List (Point F) × F)

module _ {F : Type 0} ⦃f : Float F⦄ where
  abbrev pub flat : Point3 F → Point F
  flat p = (p.0, p.1)

  -- `_odom_cb` and `_pose_cb`
  abbrev pub pose_cb : Point3 F → Node F → Node F
  pose_cb p n = record n { pose = some p }

  abbrev pub is_duplicate : Params F → Point3 F → Option (Point3 F) → Bool
  is_duplicate p new none = false
  is_duplicate p new (some old) =
      at_most (distance (flat new) (flat old)) p.duplicate_goal_xy_tolerance
      && at_most (absolute (new.2 ⊖ old.2)) p.duplicate_goal_z_tolerance

  unfoldable pub goal_cb : Params F → Point3 F → Node F → Node F
  goal_cb p new n =
      if is_duplicate p new n.goal then n else record n { goal = some new; goal_reached = false }

  -- An empty route is forgotten.
  unfoldable pub global_path_cb : F → List (Point F) → Node F → Node F
  global_path_cb now [] n = record n { global_path = none }
  global_path_cb now (a ∷ route) n = record n { global_path = some (a ∷ route, now) }

  abbrev pub slam_map_cb : F → OccupancyGrid F → Node F → Node F
  slam_map_cb now m n = record n { slam_map = some (m, now) }

  -- A cloud that cannot be read, or is empty, changes nothing.
  unfoldable pub dlio_map_cb : F → Option (List (Point3 F)) → Node F → Node F
  dlio_map_cb now none n = n
  dlio_map_cb now (some []) n = n
  dlio_map_cb now (some (p ∷ ps)) n = record n { dlio_map = some (p ∷ ps, now) }

  -- A payload that cannot be parsed changes nothing.
  unfoldable pub external_costmap_cb : F → List F → Node F → Node F
  external_costmap_cb now payload n = elim (parse_costmap_raw payload) [
    | malformed m ↦ n
    | parsed g ↦ record n { external_grid = some (g, now) }
  ]
