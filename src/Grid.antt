-- ===== src/Grid.antt =====
-- The read interface of a cost grid that `AStarPlanner` works on, shared by `ExternalGridMap`
-- (ros2_ws/src/a_star_mpc_planner/a_star_mpc_planner/external_grid_map.py) and `GlobalCostmap`
-- (global_costmap.py beside it), with the two coordinate helpers that both define.
pub mod Cells
use package.navigation.Prelude.{
  ℕ, Bool, ◌&&◌, Option, some, none, ℤ, pos, leb_ℤ, ltb_ℤ, if◌then◌else◌,
}
use package.navigation.Float.{Float, ◌⊕◌, ◌⊖◌, ◌⊗◌, ◌⊘◌}

abbrev pub Cell : Type 0
Cell = ℤ × ℤ

-- `gmap[ix, iy]` and `hmap[ix, iy]`; in the height layer `none` is NaN.
pub record GridMap (F : Type 0) : Type 0 where
  pub gmap : Cell → F
  pub hmap : Option (Cell → Option F)
  pub cells : ℕ
  pub reso : F
  pub minx : F
  pub miny : F

-- `0 <= ix < cells and 0 <= iy < cells`
unfoldable pub inside : ℕ → Cell → Bool
inside cells (ix, iy) =
    leb_ℤ (pos 0) ix && ltb_ℤ ix (pos cells) && leb_ℤ (pos 0) iy && ltb_ℤ iy (pos cells)

module _ {F : Type 0} ⦃f : Float F⦄ where
  -- `none` is `(None, None)`.
  unfoldable pub world_to_index : GridMap F → F → F → Option Cell
  unfolding inside
  world_to_index g x y =
      let ix = f.trunc ((x ⊖ g.minx) ⊘ g.reso) in
      let iy = f.trunc ((y ⊖ g.miny) ⊘ g.reso) in
      if inside g.cells (ix, iy) then some (ix, iy) else none

  unfoldable pub index_to_world : GridMap F → Cell → F × F
  index_to_world g (ix, iy) = (f.of_int ix ⊗ g.reso ⊕ g.minx, f.of_int iy ⊗ g.reso ⊕ g.miny)
