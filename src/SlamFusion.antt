-- ===== src/SlamFusion.antt =====
-- `extract_slam_obstacle_points` of ros2_ws/src/a_star_mpc_planner/a_star_mpc_planner/slam_map_utils.py. The
-- map's data are a list of integers; `cos` and `sin` are parameters; warnings are left out.
pub mod Occupied
mod Tests
use package.navigation.Prelude.{
  larger, smaller, ℕ, zero, suc, ◌+◌, ◌-◌, ◌*◌, Bool, true, false, ◌||◌, not, Option, none, some,
  List, [], ◌∷◌, ◌++◌, ℤ, pos, pos_part, ◌+ℤ◌, ltb_ℤ, leb_ℤ, ◌==◌, if◌then◌else◌, length,
}
use package.navigation.Float.{Float, ◌⊕◌, ◌⊖◌, ◌⊗◌, ◌⊘◌, at_most, less, nought, negate}

pub record OccupancyGrid (F : Type 0) : Type 0 where
  pub resolution : F
  pub ox : F
  pub oy : F
  pub width : ℕ
  pub height : ℕ
  pub values : List ℤ

pub record Settings (F : Type 0) : Type 0 where
  pub slam_map_max_age : F
  pub slam_map_occ_thr : ℤ
  pub slam_map_unknown_obstacle : Bool
  pub grid_half_width : F
  pub planning_height : F

-- The transform from the map to the planner's frame.
pub record Transform (F : Type 0) : Type 0 where
  pub dx : F
  pub dy : F
  pub yaw : F

-- `None`, the error of `reshape`, or the points.
pub data Extracted (F : Type 0) : Type 0 where
  nothing : Extracted F
  shape_error : Extracted F
  points : List (F × F × F) → Extracted F

abbrev pub value_at : List ℤ → ℕ → ℤ
value_at [] k = pos 0
value_at (v ∷ vs) zero = v
value_at (v ∷ vs) (suc k) = value_at vs k

module _ {F : Type 0} ⦃f : Float F⦄ where
  abbrev pub is_obstacle : Settings F → ℤ → Bool
  is_obstacle p v =
      leb_ℤ p.slam_map_occ_thr v || (if p.slam_map_unknown_obstacle then ltb_ℤ v (pos 0) else false)

  module _ (cos sin : F → F) (p : Settings F) (m : OccupancyGrid F) (tf : Transform F) where
    -- The centre of a cell, in the planner's frame.
    unfoldable pub centre : ℕ → ℕ → F × F × F
    centre row col =
        let wx_map = (f.of_int (pos col) ⊕ f.lit 1 2) ⊗ m.resolution ⊕ m.ox in
        let wy_map = (f.of_int (pos row) ⊕ f.lit 1 2) ⊗ m.resolution ⊕ m.oy in
        (
          cos tf.yaw ⊗ wx_map ⊖ sin tf.yaw ⊗ wy_map ⊕ tf.dx,
          sin tf.yaw ⊗ wx_map ⊕ cos tf.yaw ⊗ wy_map ⊕ tf.dy,
          p.planning_height,
        )

    -- The obstacles of a row from a column on, and of the rows from one on.
    unfoldable pub row_points : ℕ → ℕ → ℕ → List (F × F × F)
    row_points row col zero = []
    row_points row col (suc n) =
        let rest = row_points row (col + 1) n in
        if is_obstacle p (value_at m.values (row * m.width + col))
        then centre row col ∷ rest
        else rest

    unfoldable pub crop_points : ℕ → ℕ → ℕ → ℕ → List (F × F × F)
    unfolding row_points
    crop_points row zero col cols = []
    crop_points row (suc n) col cols = row_points row col cols ++ crop_points (row + 1) n col cols

    -- The window of the robot along one axis: the first index, and the one past the last.
    unfoldable pub window : F → F → ℕ → ℤ × ℤ
    window at origin size = (
      larger (pos 0) (f.trunc ((at ⊖ p.grid_half_width ⊖ origin) ⊘ m.resolution)),
      smaller (pos size) (f.trunc ((at ⊕ p.grid_half_width ⊖ origin) ⊘ m.resolution) +ℤ pos 1),
    )

    abbrev pub some_points : List (F × F × F) → Extracted F
    some_points [] = nothing
    some_points (x ∷ xs) = points (x ∷ xs)

    unfoldable pub crop_between : ℤ × ℤ → ℤ × ℤ → Extracted F
    unfolding crop_points
    crop_between cols rows =
        let row = pos_part rows.0 in
        let col = pos_part cols.0 in
        if leb_ℤ cols.1 cols.0 || leb_ℤ rows.1 rows.0
        then nothing
        else if not (length m.values == m.height * m.width)
        then shape_error
        else some_points (crop_points row (pos_part rows.1 - row) col (pos_part cols.1 - col))

    unfoldable pub crop : F × F → Extracted F
    unfolding window crop_between
    crop (rx, ry) =
        let cos_inv = cos (negate tf.yaw) in
        let sin_inv = sin (negate tf.yaw) in
        let rx_map = cos_inv ⊗ (rx ⊖ tf.dx) ⊖ sin_inv ⊗ (ry ⊖ tf.dy) in
        let ry_map = sin_inv ⊗ (rx ⊖ tf.dx) ⊕ cos_inv ⊗ (ry ⊖ tf.dy) in
        crop_between (window rx_map m.ox m.width) (window ry_map m.oy m.height)

  unfoldable pub extract_slam_obstacle_points :
      (F → F)
      → (F → F)
      → Settings F
      → Option (OccupancyGrid F)
      → F
      → F
      → F × F
      → Transform F
      → Extracted F
  unfolding crop
  extract_slam_obstacle_points cos sin p none slam_map_t now robot_xy tf = nothing
  extract_slam_obstacle_points cos sin p (some m) slam_map_t now robot_xy tf =
      if less p.slam_map_max_age (now ⊖ slam_map_t)
      then nothing
      else if at_most m.resolution nought
      then nothing
      else crop cos sin p m tf robot_xy
