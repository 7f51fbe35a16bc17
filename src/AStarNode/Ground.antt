-- ===== src/AStarNode/Ground.antt =====
-- `_remove_ground_plane` and `_lidar_cb` of a_star_node.py. The random choices of three points are inputs.
use navigation.Prelude.{
  ℕ, Bool, true, not, Option, none, some, List, [], ◌∷◌, ℤ, length, ltb, if◌then◌else◌, map,
}
use navigation.Float.{Float, ◌⊕◌, ◌⊖◌, ◌⊗◌, ◌⊘◌, less, negate, fmin}
use navigation.PersistentMap
use navigation.GaussianGrid.{Point3, segment_obstacles}
use navigation.MpcNode.Plane.{absolute, distance}
use navigation.AStarNode.{Params, Node, flat}

pub record GroundParams (F : Type 0) : Type 0 where
  pub cand_z_max : F
  pub min_nz : F
  pub margin : F

-- A unit normal, and the offset.
abbrev pub Plane : Type 0 → Type 0
Plane F = Point3 F × F

module _ {F : Type 0} ⦃f : Float F⦄ where
  abbrev pub minus3 : Point3 F → Point3 F → Point3 F
  minus3 a b = (a.0 ⊖ b.0, a.1 ⊖ b.1, a.2 ⊖ b.2)

  abbrev pub cross : Point3 F → Point3 F → Point3 F
  cross a b = (a.1 ⊗ b.2 ⊖ a.2 ⊗ b.1, a.2 ⊗ b.0 ⊖ a.0 ⊗ b.2, a.0 ⊗ b.1 ⊖ a.1 ⊗ b.0)

  abbrev pub dot : Point3 F → Point3 F → F
  dot a b = a.0 ⊗ b.0 ⊕ a.1 ⊗ b.1 ⊕ a.2 ⊗ b.2

  abbrev pub is_on : F → Plane F → Point3 F → Bool
  is_on margin plane p = less (absolute (dot p plane.0 ⊕ plane.1)) margin

  abbrev pub filter : (Point3 F → Bool) → List (Point3 F) → List (Point3 F)
  filter test [] = []
  filter test (p ∷ ps) = let rest = filter test ps in if test p then p ∷ rest else rest

  -- The plane of three points, when they span one that is nearly horizontal.
  unfoldable pub plane_of : GroundParams F → Point3 F × Point3 F × Point3 F → Option (Plane F)
  plane_of g (a, b, c) =
      let n = cross (minus3 b a) (minus3 c a) in
      let nn = f.sqrt (dot n n) in
      let normal : Point3 F = (n.0 ⊘ nn, n.1 ⊘ nn, n.2 ⊘ nn) in
      if less nn (f.lit 1 1000000000)
      then none
      else if less (absolute normal.2) g.min_nz
      then none
      else some (normal, negate (dot normal a))

  -- The first plane with the most inliers, of those that the choices span, and the number of its inliers.
  abbrev pub better :
      GroundParams F → List (Point3 F) → Plane F → Option (ℕ × Plane F) → ℕ × Plane F
  better g cand plane none = (length (filter (is_on g.margin plane) cand), plane)
  better g cand plane (some best) =
      let inliers = length (filter (is_on g.margin plane) cand) in
      if ltb best.0 inliers then (inliers, plane) else best

  unfoldable pub best_plane :
      GroundParams F
      → List (Point3 F)
      → List (Point3 F × Point3 F × Point3 F)
      → Option (ℕ × Plane F)
      → Option (ℕ × Plane F)
  best_plane g cand [] best = best
  best_plane g cand (tri ∷ tris) best =
      best_plane g cand tris (elim (plane_of g tri) as (λ _. Option (ℕ × Plane F)) [
        | none ↦ best
        | some plane ↦ some (better g cand plane best)
      ])

  abbrev pub lowest : F → List (Point3 F) → F
  lowest z [] = z
  lowest z (p ∷ ps) = lowest (fmin z p.2) ps

  abbrev pub candidates : F → List (Point3 F) → List (Point3 F)
  candidates cand_z_max [] = []
  candidates cand_z_max (p ∷ ps) = filter (λ q. less q.2 (lowest p.2 ps ⊕ cand_z_max)) (p ∷ ps)

  abbrev pub unless_empty : List (Point3 F) → List (Point3 F) → List (Point3 F)
  unless_empty pts [] = pts
  unless_empty pts (k ∷ ks) = k ∷ ks

  -- The cloud without the points of the dominant plane among the low points.
  unfoldable pub remove_ground_plane :
      GroundParams F → List (Point3 F × Point3 F × Point3 F) → List (Point3 F) → List (Point3 F)
  remove_ground_plane g tris pts =
      let cand = candidates g.cand_z_max pts in
      let kept = elim (best_plane g cand tris none) as (λ _. List (Point3 F)) [
        | none ↦ pts
        | some best ↦ unless_empty pts (filter (λ q. not (is_on g.margin best.1 q)) pts)
      ] in
      if ltb (length pts) 50 then pts else if ltb (length cand) 30 then pts else kept

  abbrev pub in_range : Params F → Option (Point3 F) → Point3 F → Bool
  in_range p none q = true
  in_range p (some pose) q = less (distance (flat q) (flat pose)) p.max_lidar_range

  -- The points of a scan that are left.
  abbrev pub scanned :
      Params F
      → GroundParams F
      → List (Point3 F × Point3 F × Point3 F)
      → Node F
      → List (Point3 F)
      → List (Point3 F)
  scanned p g tris n pts =
      let near = filter (in_range p n.pose) pts in
      if p.ground_removal_en then remove_ground_plane g tris near else near

  -- What the memory is fed.
  abbrev pub remembered : (F → ℤ) → Params F → Node F → List (Point3 F) → List (Point3 F)
  remembered floor p n pts =
      if n.grid.ground_segment_en
      then segment_obstacles floor pts p.grid_reso p.ground_segment_height
      else pts

  abbrev pub fed : List (Point3 F) → Option (List (F × F))
  fed [] = none
  fed (o ∷ os) = some (map flat (o ∷ os))

  abbrev pub with_memory : Option (PersistentMap.PersistentMap F) → Node F → Option (Node F)
  with_memory none n = none
  with_memory (some m) n = some (record n { memory = m })

  -- The parsed scan, or `none` when it cannot be read. The result `none` is a `KeyError` of the memory.
  unfoldable pub lidar_cb :
      (F → ℤ)
      → Params F
      → GroundParams F
      → List (Point3 F × Point3 F × Point3 F)
      → F
      → Option (List (Point3 F))
      → Node F
      → Option (Node F)
  lidar_cb floor p g tris now none n = some n
  lidar_cb floor p g tris now (some pts) n = elim (scanned p g tris n pts) [
    | [] ↦ with_memory (PersistentMap.update none now n.memory) n
    | q ∷ qs ↦
        with_memory (PersistentMap.update (fed (remembered floor p n (q ∷ qs))) now n.memory)
          (record n { lidar_points = some (q ∷ qs) })
  ]
