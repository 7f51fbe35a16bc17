-- ===== src/GaussianGrid.antt =====
-- `FixedGaussianGridMap` of ros2_ws/src/a_star_mpc_planner/a_star_mpc_planner/gaussian_grid_map.py. An array
-- over the grid is a function of the cell, read at the grid's cells only; in the height layer `none` is NaN.
-- SciPy's `distance_transform_edt` and `np.exp` are parameters, and the minimum filter is written out.
pub mod Queries
pub mod Segments
mod Tests
use navigation.Prelude.{
  larger, smaller, ℕ, zero, suc, ◌+◌, Bool, true, false, ◌&&◌, ◌||◌, not, Option, none, some, List,
  [], ◌∷◌, ◌++◌, ℤ, pos, pos_part, neg_part, sub_ℕ, ◌*◌, ◌+ℤ◌, ◌-ℤ◌, leb_ℤ, ltb_ℤ, eqb_ℤ,
  if◌then◌else◌, map,
}
use navigation.Float.{Float, ◌⊕◌, ◌⊖◌, ◌⊗◌, ◌⊘◌, at_most, less, nought, unit, negate, fmax, fmin}
use navigation.Grid.{Cell, GridMap, inside}

-- A point in space: x, y and z.
abbrev pub Point3 : Type 0 → Type 0
Point3 F = F × F × F

pub record GaussianGrid (F : Type 0) : Type 0 where
  pub reso : F
  pub half_width : F
  pub z_min : F
  pub robot_radius : F
  pub inflation_radius : F
  pub soft_cost_max : F
  pub build_hmap : Bool
  pub build_vmap : Bool
  pub ground_segment_height : F
  pub ground_segment_en : Bool
  pub cells : ℕ
  pub cells_z : ℕ
  pub minx : F
  pub miny : F
  pub gmap : Option (Cell → F)
  pub hmap : Option (Cell → Option F)
  pub vmap : Option (Cell → ℤ → Bool)

abbrev pub same_cell : Cell → Cell → Bool
same_cell a b = eqb_ℤ a.0 b.0 && eqb_ℤ a.1 b.1

-- The key of a cell in `segment_obstacles`, while it fits into the code's 64 bits.
abbrev pub key : Cell → ℤ
key c = sub_ℕ (pos_part c.0 * 1000003) (neg_part c.0 * 1000003) +ℤ c.1

abbrev pub same_key : Cell → Cell → Bool
same_key a b = eqb_ℤ (key a) (key b)

-- The cells of the 3 x 3 neighbourhood.
abbrev pub is_beside : Cell → Cell → Bool
is_beside a b =
    leb_ℤ (a.0 -ℤ pos 1) b.0
    && leb_ℤ b.0 (a.0 +ℤ pos 1)
    && leb_ℤ (a.1 -ℤ pos 1) b.1
    && leb_ℤ b.1 (a.1 +ℤ pos 1)

abbrev pub has_cell : Cell → List Cell → Bool
has_cell c [] = false
has_cell c (d ∷ ds) = same_cell c d || has_cell c ds

module _ {F : Type 0} ⦃f : Float F⦄ where
  -- `int(np.clip(v, 0, n - 1))` of a coordinate on a grid.
  abbrev pub clipped : ℕ → F → ℤ
  clipped n v = smaller (larger (f.trunc v) (pos 0)) (pos n -ℤ pos 1)

  -- `__init__`
  unfoldable pub init : F → F → F → F → F → Bool → F → F → F → Bool → Bool → GaussianGrid F
  init reso half_width z_min z_max height en radius inflation soft hmap vmap = record {
    reso = reso;
    half_width = half_width;
    z_min = z_min;
    robot_radius = radius;
    inflation_radius = fmax inflation radius;
    soft_cost_max = fmin (fmax soft nought) (f.lit 499 1000);
    build_hmap = hmap;
    build_vmap = vmap;
    ground_segment_height = height;
    ground_segment_en = en;
    cells = pos_part (f.round (f.lit 2 1 ⊗ half_width ⊘ reso));
    cells_z = pos_part (larger (pos 1) (f.round ((z_max ⊖ z_min) ⊘ reso)));
    minx = nought;
    miny = nought;
    gmap = none;
    hmap = none;
    vmap = none;
  }

  -- The least z among points whose cells pass a test, and the greatest.
  abbrev pub least_z : (Cell → Bool) → List (Cell × Point3 F) → Option F
  least_z test [] = none
  least_z test ((c, p) ∷ ps) =
      let rest = least_z test ps in
      if test c then some (elim rest as (λ _. F) [ none ↦ p.2 | some z ↦ fmin p.2 z ]) else rest

  abbrev pub greatest_z : (Cell → Bool) → List (Cell × Point3 F) → Option F
  greatest_z test [] = none
  greatest_z test ((c, p) ∷ ps) =
      let rest = greatest_z test ps in
      if test c then some (elim rest as (λ _. F) [ none ↦ p.2 | some z ↦ fmax p.2 z ]) else rest

  -- Whether a point rises above the lowest point of the cells that pass a test.
  abbrev pub rises : F → (Cell → Bool) → List (Cell × Point3 F) → Point3 F → Bool
  rises height test all p = elim (least_z test all) as (λ _. Bool) [
    | none ↦ false
    | some ground ↦ less (ground ⊕ height) p.2
  ]

  -- The points that rise more than `height` above the ground, which is the lowest point of the cells that
  -- `near` relates to theirs.
  unfoldable pub risen :
      F → (Cell → Cell → Bool) → List (Cell × Point3 F) → List (Cell × Point3 F) → List (Point3 F)
  risen height near all [] = []
  risen height near all ((c, p) ∷ ps) =
      let rest = risen height near all ps in if rises height (near c) all p then p ∷ rest else rest

  -- `segment_obstacles`, with `np.floor` as a parameter.
  unfoldable pub segment_obstacles : (F → ℤ) → List (Point3 F) → F → F → List (Point3 F)
  segment_obstacles floor pts reso height =
      let keyed = map (λ p. ((floor (p.0 ⊘ reso), floor (p.1 ⊘ reso)), p)) pts in
      risen height same_key keyed keyed

  module _ (g : GaussianGrid F) where
    -- Whether a point lies in the window.
    abbrev pub in_window : Point3 F → Bool
    in_window p =
        at_most g.minx p.0
        && less p.0 (g.minx ⊕ f.lit 2 1 ⊗ g.half_width)
        && at_most g.miny p.1
        && less p.1 (g.miny ⊕ f.lit 2 1 ⊗ g.half_width)

    abbrev pub kept : List (Point3 F) → List (Point3 F)
    kept [] = []
    kept (p ∷ ps) = let rest = kept ps in if in_window p then p ∷ rest else rest

    abbrev pub placed : List (Point3 F) → List (Cell × Point3 F)
    placed = map (λ p.
        ((clipped g.cells ((p.0 ⊖ g.minx) ⊘ g.reso), clipped g.cells ((p.1 ⊖ g.miny) ⊘ g.reso)), p))

    -- The obstacles of the live cloud.
    unfoldable pub live_obstacles : List (Point3 F) → List (Point3 F)
    live_obstacles pts =
        let points = placed (kept pts) in
        if g.ground_segment_en
        then risen g.ground_segment_height is_beside points points
        else kept pts

    -- The cells of obstacles that lie in the grid.
    unfoldable pub hit_cells : List (Point3 F) → List Cell
    hit_cells [] = []
    hit_cells (p ∷ ps) =
        let rest = hit_cells ps in
        let c : Cell = (f.trunc ((p.0 ⊖ g.minx) ⊘ g.reso), f.trunc ((p.1 ⊖ g.miny) ⊘ g.reso)) in
        if inside g.cells c then c ∷ rest else rest

    -- The cost at a distance from the nearest obstacle.
    unfoldable pub inflated : (F → F) → F → F
    inflated exp d =
        let decay_len = fmax ((g.inflation_radius ⊖ g.robot_radius) ⊘ f.lit 3 1) (f.lit 1 1000) in
        if at_most d g.robot_radius
        then unit
        else if less g.robot_radius g.inflation_radius && at_most d g.inflation_radius
        then g.soft_cost_max ⊗ exp (negate (d ⊖ g.robot_radius) ⊘ decay_len)
        else nought

    -- The cost layer, and whether there is an obstacle in the grid.
    unfoldable pub cost_layer :
        (ℕ → (Cell → Bool) → Cell → F) → (F → F) → List Cell → (Cell → F) × Bool
    cost_layer edt exp [] = ((λ c. nought), false)
    cost_layer edt exp (h ∷ hs) =
        ((λ c. inflated exp (edt g.cells (λ d. not (has_cell d (h ∷ hs))) c ⊗ g.reso)), true)

    abbrev pub height_layer : List (Point3 F) → Option (Cell → Option F)
    height_layer pts =
        if g.build_hmap then some (λ c. greatest_z (same_cell c) (placed (kept pts))) else none

    abbrev pub has_voxel : Cell → ℤ → List (Cell × Point3 F) → Bool
    has_voxel c iz [] = false
    has_voxel c iz ((d, p) ∷ ps) =
        (same_cell c d && eqb_ℤ iz (clipped g.cells_z ((p.2 ⊖ g.z_min) ⊘ g.reso)))
        || has_voxel c iz ps

    abbrev pub voxel_layer : List (Point3 F) → Option (Cell → ℤ → Bool)
    voxel_layer pts =
        if g.build_vmap then some (λ c iz. has_voxel c iz (placed (kept pts))) else none

  -- The window moves with the robot.
  abbrev pub centred : F × F → GaussianGrid F → GaussianGrid F
  centred (x, y) g = record g { minx = x ⊖ g.half_width; miny = y ⊖ g.half_width }

  -- `update`, from the live cloud and the points that are known to be obstacles, each perhaps empty.
  unfoldable pub update :
      (ℕ → (Cell → Bool) → Cell → F)
      → (F → F)
      → List (Point3 F)
      → F × F
      → List (Point3 F)
      → GaussianGrid F
      → GaussianGrid F × Bool
  update edt exp lidar robot direct old =
      let g = centred robot old in
      let layer = cost_layer g edt exp (hit_cells g (live_obstacles g lidar ++ kept g direct)) in
      (
        record g { gmap = some layer.0; hmap = height_layer g lidar; vmap = voxel_layer g lidar },
        layer.1,
      )

  -- The grid as the planner reads it.
  abbrev pub grid_map : GaussianGrid F → Option (GridMap F)
  grid_map g = elim g.gmap [
    | none ↦ none
    | some costs ↦ some (record {
      gmap = costs;
      hmap = g.hmap;
      cells = g.cells;
      reso = g.reso;
      minx = g.minx;
      miny = g.miny;
    })
  ]
