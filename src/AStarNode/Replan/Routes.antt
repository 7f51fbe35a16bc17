-- ===== src/AStarNode/Replan/Routes.antt =====
-- Which paths the timer's callback publishes.
use navigation.Prelude.{
  ◌≡◌, refl, sym, Bool, true, false, Option, none, some, List, [], ◌∷◌, ◌++◌, All, All-append,
  if-split, option-split, if◌then◌else◌, not, ◌||◌,
}
use mathlib.Core.Path.{subst}
use navigation.Float.{Float, ◌⊖◌, less}
use navigation.Grid.{GridMap}
use navigation.AStar.{Entry, PriorityQueue}
use navigation.Plan.{Planned, waypoints, no_plan, out_of_fuel, plan}
use navigation.SlamFusion.{Transform, Extracted, nothing, shape_error, points}
use navigation.GaussianGrid.{Point3, update, grid_map}
use navigation.MpcNode.Plane.{Point}
use navigation.AStarNode.{Params, Node, flat}
use navigation.AStarNode.Carrot.{carrot_on, carrot_target}
use navigation.AStarNode.Replan.{
  Numeric, Out, Replanned, done, raised, route, final, listed, recalled, slam_obstacles,
  extract_dlio_obstacle_points, replan_on, replan_fused, replan_toward, replan_outside,
  has_obstacles, is_reached, with_goal, replan_gaussian, replan_external, replan_cb,
}

module _ {F : Type 0} ⦃f : Float F⦄ (lib : Numeric F) (p : Params F) (q : PriorityQueue (Entry F))
    (now : F) (tf : Transform F) (n : Node F) where
  module _ (pose goal : Point3 F) where
    abbrev IsGiven : Option (GridMap F) → Point F → List (Point F) → Type 0
    IsGiven grid target ws = plan p.planner q grid (flat pose) target ≡ waypoints ws

    -- The target: ahead on the global path, when the node follows paths and this one is not too old, and
    -- else the goal.
    abbrev IsAhead : Bool → Bool → List (Point F) → Point F → Type 0
    IsAhead true false way target =
        target ≡ carrot_on p.global_carrot_dist (flat pose) way (flat goal)
    IsAhead true true way target = target ≡ flat goal
    IsAhead false old way target = target ≡ flat goal

    abbrev IsTargetOn : Option (List (Point F) × F) → Point F → Type 0
    IsTargetOn none target = target ≡ flat goal
    IsTargetOn (some (way, t)) target =
        IsAhead p.follow_global_path (less p.global_path_max_age (now ⊖ t)) way target

    -- The obstacles that are fused with the scan: the memory's, those of the SLAM map, when there are any,
    -- and those of the odometry's map.
    abbrev IsFused : Extracted F → List (Point3 F) → Type 0
    IsFused shape_error direct = ⊥
    IsFused nothing direct =
        direct ≡ recalled (flat pose) n ++ extract_dlio_obstacle_points lib.floor p now pose n
    IsFused (points slam) direct =
        direct
        ≡ recalled (flat pose) n ++ slam ++ extract_dlio_obstacle_points lib.floor p now pose n

    -- On the external grid, the planner gave the waypoints on the node's grid, which is not too old, toward
    -- the goal. On the node's own, it gave them on the grid made around the robot from the last scan and
    -- the fused obstacles, toward the target, and there was a scan or a memory to plan with.
    abbrev pub IsPlannedOn : Bool → List (Point F) → Type 0
    IsPlannedOn true ws =
        (grid : GridMap F) × (t : F) × (n.external_grid ≡ some (grid, t))
        × (less p.external_costmap_max_age (now ⊖ t) ≡ false)
        × IsGiven (some grid) (flat goal) ws
    IsPlannedOn false ws =
        (direct : List (Point3 F)) × (target : Point F) × (has_obstacles lib p q n ≡ true)
        × IsFused (slam_obstacles lib p q now tf (flat pose) n) direct
        × IsTargetOn n.global_path target
        × IsGiven
            (grid_map (update lib.edt lib.exp (listed n.lidar_points) (flat pose) direct n.grid).0)
            target ws

  -- The node has a pose, and a goal that is not reached.
  abbrev IsUnderWay : Point3 F → Point3 F → Type 0
  IsUnderWay pose goal =
      (n.pose ≡ some pose) × (n.goal ≡ some goal) × (is_reached lib p q pose goal ≡ false)

  -- A path that is published is planned as the backend asks, from the node's pose and at the height of its
  -- goal, which is not reached; and a local goal is the end of such a path.
  abbrev pub IsJustified : Out F → Type 0
  IsJustified (Out.path ws z) =
      (pose : Point3 F) × (goal : Point3 F) × IsUnderWay pose goal
      × (z ≡ goal.2)
      × IsPlannedOn pose goal p.external ws
  IsJustified (Out.local_goal xy z) =
      (pose : Point3 F) × (goal : Point3 F) × (a : Point F) × (ws : List (Point F)) × IsUnderWay
        pose goal
      × (z ≡ goal.2)
      × (xy ≡ final a ws)
      × IsPlannedOn pose goal p.external (a ∷ ws)
  IsJustified (Out.grid_raw g) = p.external ≡ false

  abbrev pub AllJustified : Replanned F → Type 0
  AllJustified raised =
      (pose : Point3 F) × (n.pose ≡ some pose)
      × (p.external ≡ false)
      × (slam_obstacles lib p q now tf (flat pose) n ≡ shape_error)
  AllJustified (done n' outs) = All IsJustified outs

  route-AllJustified :
      (pose goal : Point3 F) (r : Planned F)
      → IsUnderWay pose goal
      → ((ws : List (Point F)) → r ≡ waypoints ws → IsPlannedOn pose goal p.external ws)
      → All IsJustified (route goal.2 r)
  unfolding route
  route-AllJustified pose goal no_plan u h = tt
  route-AllJustified pose goal out_of_fuel u h = tt
  route-AllJustified pose goal (waypoints []) u h = tt
  route-AllJustified pose goal (waypoints (a ∷ ws)) u h =
      let planned = h (a ∷ ws) refl in
      ((pose, goal, u, refl, planned), ((pose, goal, a, ws, u, refl, refl, planned), tt))

  ahead :
      (pose goal : Point3 F) (follow old : Bool) (way : List (Point F))
      → IsAhead pose goal follow old way (
          if not follow || old
          then flat goal
          else carrot_on p.global_carrot_dist (flat pose) way (flat goal))
  ahead pose goal true true way = refl
  ahead pose goal true false way = refl
  ahead pose goal false old way = refl

  target-IsTargetOn :
      (pose goal : Point3 F) (o : Option (List (Point F) × F))
      → IsTargetOn pose goal o
          (carrot_target p now (flat goal) (flat pose) (record n { global_path = o }))
  unfolding carrot_target
  target-IsTargetOn pose goal none = refl
  target-IsTargetOn pose goal (some (way, t)) = ahead pose goal _ _ way

  module _ (own : p.external ≡ false) (obstacles : has_obstacles lib p q n ≡ true)
      (pose goal : Point3 F) (u : IsUnderWay pose goal) where
    replan_on-AllJustified :
        (direct : List (Point3 F))
        → IsFused pose goal (slam_obstacles lib p q now tf (flat pose) n) direct
        → All IsJustified (replan_on lib p q now pose goal direct n).1
    unfolding replan_on carrot_target
    replan_on-AllJustified direct fused =
        All-append IsJustified _ _
          (route-AllJustified pose goal _ u (λ ws e.
            subst (λ b. IsPlannedOn pose goal b ws) (sym own)
              (direct, _, obstacles, fused, target-IsTargetOn pose goal n.global_path, e)))
          (own, tt)

    fused-AllJustified :
        (slam : Extracted F)
        → slam_obstacles lib p q now tf (flat pose) n ≡ slam
        → AllJustified (replan_fused lib p q now pose goal n slam)
    unfolding replan_fused
    fused-AllJustified shape_error e = (pose, u.0, own, e)
    fused-AllJustified nothing e =
        let direct =
          recalled (flat pose) n ++ extract_dlio_obstacle_points lib.floor p now pose n in
        replan_on-AllJustified direct (subst (λ s. IsFused pose goal s direct) (sym e) refl)
    fused-AllJustified (points slam) e =
        let direct =
          recalled (flat pose) n ++ slam ++ extract_dlio_obstacle_points lib.floor p now pose n in
        replan_on-AllJustified direct (subst (λ s. IsFused pose goal s direct) (sym e) refl)

  with_goal-AllJustified :
      (onward : Point3 F → Point3 F → Replanned F) (pose : Point3 F) (o : Option (Point3 F))
      → n.pose ≡ some pose
      → n.goal ≡ o
      → ((goal : Point3 F) → IsUnderWay pose goal → AllJustified (onward pose goal))
      → AllJustified (with_goal lib p q onward n pose o)
  with_goal-AllJustified onward pose none ep eg h = tt
  with_goal-AllJustified onward pose (some goal) ep eg h =
      if-split AllJustified (is_reached lib p q pose goal) (λ _. tt) (λ far. h goal (ep, eg, far))

  replan_gaussian-AllJustified :
      p.external ≡ false → AllJustified (replan_gaussian lib p q now tf n)
  unfolding replan_gaussian
  replan_gaussian-AllJustified own =
      option-split AllJustified n.pose (λ _. tt)
        (λ pose ep.
          if-split AllJustified (has_obstacles lib p q n)
            (λ obstacles.
              with_goal-AllJustified (replan_toward lib p q now tf n) pose n.goal ep refl
                (λ goal u. fused-AllJustified own obstacles pose goal u _ refl))
            (λ _. tt))

  replan_external-AllJustified : p.external ≡ true → AllJustified (replan_external lib p q now n)
  unfolding replan_external
  replan_external-AllJustified ext_on =
      option-split AllJustified n.pose (λ _. tt)
        (λ pose ep.
          option-split AllJustified n.external_grid (λ _. tt)
            (λ ext eg.
              if-split AllJustified (less p.external_costmap_max_age (now ⊖ ext.1)) (λ _. tt)
                (λ fresh.
                  with_goal-AllJustified (replan_outside lib p q ext.0 n) pose n.goal ep refl
                    (λ goal u. route-AllJustified pose goal _ u (λ ws e.
                      subst (λ b. IsPlannedOn pose goal b ws) (sym ext_on)
                        (ext.0, ext.1, eg, fresh, e))))))

  -- Every path that a call of the timer's callback publishes leads from the node's pose at the height of
  -- its goal, which is not reached; a local goal is the end of such a path. With the external backend, it
  -- is a plan toward the goal on the external grid, which is not too old. With the node's own grid, it is a
  -- plan on the grid made around the robot from the last scan and the obstacles of the memory and of the
  -- maps, toward the point ahead on the global path while the node follows one that is fresh, and else
  -- toward the goal; and there is a scan or a memory to plan with. The raw grid is published with the node's own grid only; and the call
  -- fails only with the node's own grid, where the extraction of the SLAM map's obstacles fails.
  pub replan_cb-AllJustified : AllJustified (replan_cb lib p q now tf n)
  unfolding replan_cb
  replan_cb-AllJustified =
      if-split AllJustified p.external replan_external-AllJustified replan_gaussian-AllJustified
