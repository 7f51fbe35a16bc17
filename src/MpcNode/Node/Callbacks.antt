-- ===== src/MpcNode/Node/Callbacks.antt =====
-- `_pose_cb`, `_goal_cb`, `_lidar_cb` and `_path_cb` of mpc_node.py.
use navigation.Prelude.{Bool, true, false, ◌&&◌, Option, none, some, List, [], ◌∷◌, if◌then◌else◌}
use navigation.Float.{Float, ◌⊕◌, ◌⊖◌, ◌⊗◌, ◌⊘◌, at_most, less, unit, negate}
use navigation.Float.Trig.{Trig}
use navigation.MpcNode.Plane.{Point, Quaternion, distance, absolute, quat_to_yaw, wrap_angle}
use navigation.MpcNode.Setpoint.{Pose2d}
use navigation.MpcNode.Smoothing.{Spot, Trail, smooth_resample_path}
use navigation.MpcNode.Node.{Params, Pose, BodyVelocity, Node, navigating}

abbrev pub filter : {A : Type 0} → (A → Bool) → List A → List A
filter test [] = []
filter test (x ∷ xs) = let others = filter test xs in if test x then x ∷ others else others

module _ {F : Type 0} ⦃f : Float F⦄ ⦃t : Trig F⦄ where
  -- One step of the exponential moving average.
  abbrev averaged : F → F → F → F
  averaged a old raw = (unit ⊖ a) ⊗ old ⊕ a ⊗ raw

  -- The estimate of the velocity after a pose, from the time and the pose before it.
  unfoldable pub estimated : F → F → F × Pose2d F → Pose2d F → BodyVelocity F → BodyVelocity F
  estimated alpha now (prev_sec, prev) new v =
      let dt = now ⊖ prev_sec in
      let dx = (new.0.0 ⊖ prev.0.0) ⊘ dt in
      let dy = (new.0.1 ⊖ prev.0.1) ⊘ dt in
      let cy = t.cos new.1 in
      let sy = t.sin new.1 in
      let turned = new.1 ⊖ prev.1 in
      if less (f.lit 1 100) dt && less dt (f.lit 5 10)
      then record {
        vx_est = averaged alpha v.vx_est (dx ⊗ cy ⊕ dy ⊗ sy);
        vy_est = averaged alpha v.vy_est (negate dx ⊗ sy ⊕ dy ⊗ cy);
        wz_est = averaged alpha v.wz_est (t.atan2 (t.sin turned) (t.cos turned) ⊘ dt);
      }
      else v

  -- `_pose_cb`, and `_odom_cb`, which passes the pose on.
  unfoldable pub pose_cb : {T : Type 0} → Params F → F → Spot F → Quaternion F → Node F T → Node F T
  pose_cb p now spot q n =
      let yaw = quat_to_yaw q in
      let velocity' : BodyVelocity F = elim n.prev_pose [
        | none ↦ n.velocity
        | some prev ↦ estimated p.vel_filter_alpha now prev (spot.0, yaw) n.velocity
      ] in
      record n {
        last_odom_sec = some now;
        velocity = velocity';
        prev_pose = some (now, (spot.0, yaw));
        pose = some (record { spot = spot; yaw = yaw });
      }

  abbrev pub is_duplicate : Params F → Pose2d F → Option (Pose2d F) → Bool
  is_duplicate p new none = false
  is_duplicate p new (some old) =
      at_most (distance new.0 old.0) p.dup_goal_xy_tol
      && at_most (absolute (wrap_angle (new.1 ⊖ old.1))) p.dup_goal_yaw_tol

  unfoldable pub goal_cb : {T : Type 0} → Params F → Point F → Quaternion F → Node F T → Node F T
  goal_cb p xy q n =
      let new : Pose2d F = (xy, quat_to_yaw q) in
      if is_duplicate p new n.goal then n else record n { goal = some new; nav_state = navigating }

  -- The z-band, when it is not empty.
  abbrev pub in_band : Params F → Spot F → Bool
  in_band p o =
      if at_most p.obstacle_z_min p.obstacle_z_max
      then at_most p.obstacle_z_min o.1 && at_most o.1 p.obstacle_z_max
      else true

  abbrev pub in_range : Params F → Option (Pose F) → Spot F → Bool
  in_range p none o = true
  in_range p (some pose) o = less (distance o.0 pose.spot.0) p.max_lidar_range

  -- The points that were read replace the old ones when some are left.
  abbrev pub kept_cloud : List (Spot F) → List (Spot F) → List (Spot F)
  kept_cloud old [] = old
  kept_cloud old (o ∷ os) = o ∷ os

  -- A cloud with its stamp; `none` when `_read_xyz` raises.
  unfoldable pub lidar_cb :
      {T : Type 0} → Params F → F → Option (List (Spot F)) → Node F T → Node F T
  lidar_cb p stamp none n = record n { last_scan_stamp = some stamp }
  lidar_cb p stamp (some points) n = record n {
    last_scan_stamp = some stamp;
    lidar_points =
        kept_cloud n.lidar_points (filter (in_range p n.pose) (filter (in_band p) points));
  }

  -- The second point of a path, or the first when it has no other.
  abbrev pub anchor : Trail (Spot F) → Point F
  anchor (a, []) = a.0
  anchor (a, b ∷ bs) = b.0

  -- The filter of the setpoint is reset when the new path is far from it.
  abbrev pub kept_setpoint : F → Point F → Option (Pose2d F) → Option (Pose2d F)
  kept_setpoint reset_dist xy none = none
  kept_setpoint reset_dist xy (some held) =
      if less reset_dist (distance xy held.0) then none else some held

  -- A path, perhaps without points.
  unfoldable pub path_cb : {T : Type 0} → Params F → F → List (Spot F) → Node F T → Node F T
  path_cb p now [] n = record n { last_path_sec = some now; path = none; setpoint = none }
  path_cb p now (a ∷ others) n =
      let smoothed = smooth_resample_path p.numeric p.resample_ds (a, others) in
      record n {
        last_path_sec = some now;
        path = some smoothed;
        setpoint = kept_setpoint p.filter.reset_dist (anchor smoothed) n.setpoint;
      }
