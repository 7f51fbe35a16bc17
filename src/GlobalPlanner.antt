-- ===== src/GlobalPlanner.antt =====
-- `GlobalPlannerNode` of ros2_ws/src/a_star_mpc_planner/a_star_mpc_planner/global_planner_node.py. SciPy's
-- distance transform and `np.exp` are parameters; the costmap for the display is left out.
use navigation.Prelude.{ℕ, Bool, Option, none, some, List, [], ◌∷◌, if◌then◌else◌}
use navigation.Float.{Float, at_most, less}
use navigation.Grid.{Cell, GridMap}
use navigation.AStar.{Planner, Entry, PriorityQueue}
use navigation.Plan.{Planned, waypoints, plan}
use navigation.GlobalCostmap.{GlobalCostmap, update, build}
use navigation.MpcNode.Plane.{Point, distance}

pub record Node (F : Type 0) : Type 0 where
  pub costmap : GlobalCostmap F
  pub pose_xy : Option (Point F)
  pub goal_xy : Option (Point F)
  pub latest_obs : Option (List (Point F))

pub record Params (F : Type 0) : Type 0 where
  pub planner : Planner F
  pub max_range : F
  pub goal_reached_radius : F

module _ {F : Type 0} ⦃f : Float F⦄ where
  abbrev pub odom_cb : Point F → Node F → Node F
  odom_cb xy n = record n { pose_xy = some xy }

  abbrev pub goal_cb : Point F → Node F → Node F
  goal_cb xy n = record n { goal_xy = some xy }

  -- A cloud that cannot be read, or is empty, changes nothing.
  unfoldable pub obs_cb : Option (List (Point F)) → Node F → Node F
  obs_cb none n = n
  obs_cb (some []) n = n
  obs_cb (some (o ∷ os)) n = record n { latest_obs = some (o ∷ os) }

  abbrev pub in_range : F → Point F → List (Point F) → List (Point F)
  in_range range robot [] = []
  in_range range robot (o ∷ os) =
      let rest = in_range range robot os in if less (distance o robot) range then o ∷ rest else rest

  abbrev pub near_obs : F → Point F → Option (List (Point F)) → Option (List (Point F))
  near_obs range robot none = none
  near_obs range robot (some os) = some (in_range range robot os)

  -- The costmap as the planner reads it.
  abbrev pub grid_map : GlobalCostmap F → Option (GridMap F)
  grid_map g = elim g.layers [
    | none ↦ none
    | some l ↦ some (record {
      gmap = l.gmap;
      hmap = none;
      cells = g.cells;
      reso = g.reso;
      minx = g.minx;
      miny = g.miny;
    })
  ]

  -- The waypoints of a plan; a plan without waypoints is no path.
  abbrev pub some_path : Planned F → Option (List (Point F))
  some_path (waypoints (a ∷ ws)) = some (a ∷ ws)
  some_path _ = none

  module _ (edt : ℕ → (Cell → Bool) → Cell → F) (exp : F → F) (p : Params F) where
    -- With a pose and a goal.
    unfoldable pub replan_toward :
        PriorityQueue (Entry F) → Point F → Point F → Node F → Node F × Option (List (Point F))
    replan_toward q robot goal n =
        let costmap' =
          build edt exp (update (near_obs p.max_range robot n.latest_obs) robot n.costmap) in
        (
          record n { costmap = costmap' },
          if at_most (distance robot goal) p.goal_reached_radius
              then none
              else some_path (plan p.planner q (grid_map costmap') robot goal),
        )

    -- `_replan_cb`, with the path that it publishes.
    unfoldable pub replan_cb : PriorityQueue (Entry F) → Node F → Node F × Option (List (Point F))
    replan_cb q n = elim n.pose_xy [
      | none ↦ (n, none)
      | some robot ↦ elim n.goal_xy [ none ↦ (n, none) | some goal ↦ replan_toward q robot goal n ]
    ]
