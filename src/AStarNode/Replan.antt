-- ===== src/AStarNode/Replan.antt =====
-- `_replan_cb` and `_replan_external` of a_star_node.py, with the fusion of the maps. The transform that the
-- buffer gives is an input.
pub mod Routes
use navigation.Prelude.{
  ℕ, Bool, true, false, ◌&&◌, ◌||◌, not, Option, none, some, List, [], ◌∷◌, ◌++◌, ℤ, leb, length,
  ltb, if◌then◌else◌,
}
use navigation.Float.{Float, ◌⊕◌, ◌⊖◌, at_most, less, nought}
use navigation.Grid.{Cell, GridMap}
use navigation.AStar.{Entry, PriorityQueue}
use navigation.Plan.{Planned, waypoints, no_plan, out_of_fuel, plan}
use navigation.PersistentMap.{get_points_in_window, size}
use navigation.SlamFusion.{
  Transform, Extracted, nothing, shape_error, points, extract_slam_obstacle_points,
}
use navigation.GaussianGrid.{Point3, GaussianGrid, segment_obstacles, update, grid_map}
use navigation.MpcNode.Plane.{Point, distance, absolute}
use navigation.AStarNode.{Params, Node, flat}
use navigation.AStarNode.Carrot.{carrot_target}

-- The functions that the node takes from its libraries: cosine, sine, floor, exponential, and SciPy's
-- distance transform.
pub record Numeric (F : Type 0) : Type 0 where
  pub cos : F → F
  pub sin : F → F
  pub floor : F → ℤ
  pub exp : F → F
  pub edt : ℕ → (Cell → Bool) → Cell → F

-- The messages: a path at a height, its last waypoint, and the cost grid.
pub data Out (F : Type 0) : Type 0 where
  path : List (Point F) → F → Out F
  local_goal : Point F → F → Out F
  grid_raw : Option (GridMap F) → Out F

-- A call of the timer's callback: it returns, or an error of `reshape` leaves it.
pub data Replanned (F : Type 0) : Type 0 where
  done : Node F → List (Out F) → Replanned F
  raised : Replanned F

module _ {F : Type 0} ⦃f : Float F⦄ where
  abbrev pub final : Point F → List (Point F) → Point F
  final a [] = a
  final a (b ∷ bs) = final b bs

  -- What is published of a plan. A plan without waypoints is no path.
  unfoldable pub route : F → Planned F → List (Out F)
  route z no_plan = []
  route z out_of_fuel = []
  route z (waypoints []) = []
  route z (waypoints (a ∷ ws)) = path (a ∷ ws) z ∷ local_goal (final a ws) z ∷ []

  abbrev pub cropped : F → F → Point F → F → List (Point3 F) → List (Point3 F)
  cropped half_width top robot robot_z [] = []
  cropped half_width top robot robot_z (p ∷ ps) =
      let rest = cropped half_width top robot robot_z ps in
      if less (absolute (p.0 ⊖ robot.0)) half_width
        && less (absolute (p.1 ⊖ robot.1)) half_width
        && at_most p.2 (robot_z ⊕ top)
      then p ∷ rest
      else rest

  -- `_extract_dlio_obstacle_points`, with no points where the code gives `None`.
  unfoldable pub extract_dlio_obstacle_points :
      (F → ℤ) → Params F → F → Point3 F → Node F → List (Point3 F)
  extract_dlio_obstacle_points floor p now pose n = elim n.dlio_map [
    | none ↦ []
    | some dlio ↦
        if not p.enable_dlio_map || less p.dlio_map_max_age (now ⊖ dlio.1)
        then []
        else segment_obstacles floor
            (cropped n.grid.half_width p.dlio_map_z_above (flat pose) pose.2 dlio.0) p.grid_reso
            p.ground_segment_height
  ]

  abbrev pub listed : Option (List (Point3 F)) → List (Point3 F)
  listed none = []
  listed (some ps) = ps

  -- The remembered obstacles of the window.
  abbrev pub recalled : Point F → Node F → List (Point3 F)
  recalled robot n =
      let hw = n.grid.half_width in
      listed
        (get_points_in_window n.memory (robot.0 ⊖ hw) (robot.1 ⊖ hw) (robot.0 ⊕ hw) (robot.1 ⊕ hw))

  module _ (lib : Numeric F) (p : Params F) (q : PriorityQueue (Entry F)) where
    -- `_extract_slam_obstacle_points`
    unfoldable pub slam_obstacles : F → Transform F → Point F → Node F → Extracted F
    slam_obstacles now tf robot n = elim n.slam_map [
      | none ↦ nothing
      | some slam ↦
          if p.enable_slam_map
          then extract_slam_obstacle_points lib.cos lib.sin p.slam (some slam.0) slam.1 now robot tf
          else nothing
    ]

    -- From the fused obstacles on.
    unfoldable pub replan_on :
        F → Point3 F → Point3 F → List (Point3 F) → Node F → Node F × List (Out F)
    replan_on now pose goal direct n =
        let robot = flat pose in
        let grid' = (update lib.edt lib.exp (listed n.lidar_points) robot direct n.grid).0 in
        let n' = record n { goal_reached = false; grid = grid' } in
        let target = carrot_target p now (flat goal) robot n' in
        (
          n',
          route goal.2 (plan p.planner q (grid_map grid') robot target)
              ++ (grid_raw (grid_map grid') ∷ []),
        )

    -- With a goal that is not reached, and the obstacles of the SLAM map.
    unfoldable pub replan_fused : F → Point3 F → Point3 F → Node F → Extracted F → Replanned F
    replan_fused now pose goal n shape_error = raised
    replan_fused now pose goal n nothing =
        let dlio = extract_dlio_obstacle_points lib.floor p now pose n in
        let (n', outs) = replan_on now pose goal (recalled (flat pose) n ++ dlio) n in done n' outs
    replan_fused now pose goal n (points slam) =
        let dlio = extract_dlio_obstacle_points lib.floor p now pose n in
        let (n', outs) = replan_on now pose goal (recalled (flat pose) n ++ slam ++ dlio) n in
        done n' outs

    abbrev pub replan_toward : F → Transform F → Node F → Point3 F → Point3 F → Replanned F
    replan_toward now tf n pose goal =
        replan_fused now pose goal n (slam_obstacles now tf (flat pose) n)

    -- Whether there are obstacles to plan with: a scan, or a memory that is not empty.
    abbrev pub has_obstacles : Node F → Bool
    has_obstacles n = elim n.lidar_points as (λ _. Bool) [
      | none ↦ ltb 0 (size n.memory)
      | some ps ↦ true
    ]

    abbrev pub is_reached : Point3 F → Point3 F → Bool
    is_reached pose goal = at_most (distance (flat pose) (flat goal)) p.goal_reached_radius

    abbrev pub with_goal :
        (Point3 F → Point3 F → Replanned F) → Node F → Point3 F → Option (Point3 F) → Replanned F
    with_goal onward n pose none = done n []
    with_goal onward n pose (some goal) =
        if is_reached pose goal
        then done (record n { goal_reached = true }) []
        else onward pose goal

    unfoldable pub replan_gaussian : F → Transform F → Node F → Replanned F
    replan_gaussian now tf n = elim n.pose [
      | none ↦ done n []
      | some pose ↦
          if has_obstacles n then with_goal (replan_toward now tf n) n pose n.goal else done n []
    ]

    abbrev pub replan_outside : GridMap F → Node F → Point3 F → Point3 F → Replanned F
    replan_outside grid n pose goal =
        done (record n { goal_reached = false })
          (route goal.2 (plan p.planner q (some grid) (flat pose) (flat goal)))

    -- On the external grid, while it is fresh.
    unfoldable pub replan_external : F → Node F → Replanned F
    replan_external now n = elim n.pose [
      | none ↦ done n []
      | some pose ↦ elim n.external_grid [
        | none ↦ done n []
        | some ext ↦
            if less p.external_costmap_max_age (now ⊖ ext.1)
            then done n []
            else with_goal (replan_outside ext.0 n) n pose n.goal
      ]
    ]

    unfoldable pub replan_cb : F → Transform F → Node F → Replanned F
    replan_cb now tf n = if p.external then replan_external now n else replan_gaussian now tf n
