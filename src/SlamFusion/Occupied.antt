-- ===== src/SlamFusion/Occupied.antt =====
-- That every point which the fusion adds stands for an obstacle of the SLAM map.
use navigation.Prelude.{
  larger, smaller, ℕ, zero, suc, ◌+◌, ◌-◌, ◌*◌, ◌≤◌, ◌<◌, ◌≡◌, ◌≢◌, refl, inl, inr, Bool, true,
  false, ◌||◌, not, some, List, [], ◌∷◌, ◌++◌, All, ℤ, pos, pos_part, ◌+ℤ◌, leb_ℤ, ◌==◌,
  if◌then◌else◌, length, arith, Bool-cases,
}
use navigation.Float.{Float, ◌⊖◌, ◌⊗◌, ◌⊕◌, ◌⊘◌, at_most, less, nought, negate}
use navigation.SlamFusion.{
  OccupancyGrid, Settings, Transform, Extracted, nothing, shape_error, points, value_at,
  is_obstacle, centre, row_points, crop_points, window, some_points, crop_between, crop,
  extract_slam_obstacle_points,
}

larger-bound :
    (a : ℤ) (size : ℕ) (b : ℤ)
    → leb_ℤ (smaller (pos size) b) (larger (pos 0) a) ≡ false
    → pos_part (larger (pos 0) a) + (pos_part (smaller (pos size) b) - pos_part (larger (pos 0) a))
      ≤ size
larger-bound a size b h = ground arith

module _ {F : Type 0} ⦃f : Float F⦄ (cos sin : F → F) (p : Settings F) (m : OccupancyGrid F)
    (tf : Transform F) where
  -- The point is the centre of a cell of the map, at the planning height, and the cell is an obstacle.
  abbrev pub IsObstaclePoint : F × F × F → Type 0
  IsObstaclePoint pt =
      (row : ℕ) × (col : ℕ) × (row < m.height)
      × (col < m.width)
      × (is_obstacle p (value_at m.values (row * m.width + col)) ≡ true)
      × (pt ≡ centre cos sin p m tf row col)

  All-append :
      (xs ys : List (F × F × F))
      → All IsObstaclePoint xs
      → All IsObstaclePoint ys
      → All IsObstaclePoint (xs ++ ys)
  All-append [] ys h k = k
  All-append (x ∷ xs) ys h k = (h.0, All-append xs ys h.1 k)

  row_points_sound :
      (row col n : ℕ)
      → row < m.height
      → col + n ≤ m.width
      → All IsObstaclePoint (row_points cos sin p m tf row col n)
  unfolding row_points
  row_points_sound row col zero h k = tt
  row_points_sound row col (suc n) h k =
      elim (Bool-cases (is_obstacle p (value_at m.values (row * m.width + col)))) [
        | inl yes_ ↦ rw yes_ (
          (row, col, h, omega arith, yes_, refl),
          row_points_sound row (col + 1) n h (omega arith),
        )
        | inr no_ ↦ rw no_ (row_points_sound row (col + 1) n h (omega arith))
      ]

  crop_points_sound :
      (row n col cols : ℕ)
      → row + n ≤ m.height
      → col + cols ≤ m.width
      → All IsObstaclePoint (crop_points cos sin p m tf row n col cols)
  unfolding crop_points
  crop_points_sound row zero col cols h k = tt
  crop_points_sound row (suc n) col cols h k =
      All-append (row_points cos sin p m tf row col cols)
        (crop_points cos sin p m tf (row + 1) n col cols)
        (row_points_sound row col cols (omega arith) k)
        (crop_points_sound (row + 1) n col cols (omega arith) k)

  abbrev pub IsSound : Extracted F → Type 0
  IsSound nothing = Unit
  IsSound shape_error = length m.values ≢ m.height * m.width
  IsSound (points ps) = All IsObstaclePoint ps × (ps ≢ [])

  some_points-IsSound :
      (ps : List (F × F × F)) → All IsObstaclePoint ps → IsSound (some_points cos sin p m tf ps)
  some_points-IsSound [] h = tt
  some_points-IsSound (x ∷ xs) h = (h, ground arith)

  decided-IsSound :
      (no_cols no_rows fits : Bool) (ps : List (F × F × F))
      → (fits ≡ false → length m.values ≢ m.height * m.width)
      → (no_cols ≡ false → no_rows ≡ false → All IsObstaclePoint ps)
      → IsSound (
          if no_cols || no_rows
          then nothing
          else if not fits
          then shape_error
          else some_points cos sin p m tf ps)
  decided-IsSound true no_rows fits ps bad good = tt
  decided-IsSound false true fits ps bad good = tt
  decided-IsSound false false false ps bad good = bad refl
  decided-IsSound false false true ps bad good = some_points-IsSound ps (good refl refl)

  crop_between-IsSound :
      (a b c d : ℤ)
      → IsSound (
          crop_between cos sin p m tf
            (larger (pos 0) a, smaller (pos m.width) b)
            (larger (pos 0) c, smaller (pos m.height) d))
  unfolding crop_between
  crop_between-IsSound a b c d =
      let row = pos_part (larger (pos 0) c) in
      let col = pos_part (larger (pos 0) a) in
      let rows = pos_part (smaller (pos m.height) d) - row in
      let cols = pos_part (smaller (pos m.width) b) - col in
      decided-IsSound (leb_ℤ (smaller (pos m.width) b) (larger (pos 0) a))
        (leb_ℤ (smaller (pos m.height) d) (larger (pos 0) c))
        (length m.values == m.height * m.width) (crop_points cos sin p m tf row rows col cols)
        (λ h. ground arith)
        (λ no_col no_row.
          crop_points_sound row rows col cols (larger-bound c m.height d no_row)
            (larger-bound a m.width b no_col))

  windows-IsSound :
      (x y : F)
      → IsSound (
          crop_between cos sin p m tf
            (window cos sin p m tf x m.ox m.width)
            (window cos sin p m tf y m.oy m.height))
  unfolding window
  windows-IsSound x y =
      crop_between-IsSound (f.trunc ((x ⊖ p.grid_half_width ⊖ m.ox) ⊘ m.resolution))
        (f.trunc ((x ⊕ p.grid_half_width ⊖ m.ox) ⊘ m.resolution) +ℤ pos 1)
        (f.trunc ((y ⊖ p.grid_half_width ⊖ m.oy) ⊘ m.resolution))
        (f.trunc ((y ⊕ p.grid_half_width ⊖ m.oy) ⊘ m.resolution) +ℤ pos 1)

  crop-IsSound : (robot_xy : F × F) → IsSound (crop cos sin p m tf robot_xy)
  unfolding crop
  crop-IsSound (rx, ry) =
      windows-IsSound (cos (negate tf.yaw) ⊗ (rx ⊖ tf.dx) ⊖ sin (negate tf.yaw) ⊗ (ry ⊖ tf.dy))
        (sin (negate tf.yaw) ⊗ (rx ⊖ tf.dx) ⊕ cos (negate tf.yaw) ⊗ (ry ⊖ tf.dy))

  -- However the map is placed and whatever its age: every point that is extracted is the centre, brought
  -- to the planner's frame at the planning height, of a cell of the map that counts as an obstacle; a list
  -- of points is never empty; and `reshape` fails only on data of another length than the
  -- map's size.
  pub extract-IsSound :
      (slam_map_t now : F) (robot_xy : F × F)
      → IsSound (extract_slam_obstacle_points cos sin p (some m) slam_map_t now robot_xy tf)
  unfolding extract_slam_obstacle_points
  extract-IsSound slam_map_t now robot_xy =
      elim (Bool-cases (less p.slam_map_max_age (now ⊖ slam_map_t))) [
        | inl old ↦ rw old tt
        | inr new ↦ elim (Bool-cases (at_most m.resolution nought)) [
          | inl flat ↦ rw (new, flat) tt
          | inr fine ↦ rw (new, fine) (crop-IsSound robot_xy)
        ]
      ]
