-- ===== src/GaussianGrid/Queries.antt =====
-- The lookups of `FixedGaussianGridMap` by coordinates. In a height, `none` is NaN.
use navigation.Prelude.{◌&&◌, Option, none, some, pos, leb_ℤ, ltb_ℤ, if◌then◌else◌}
use navigation.Float.{Float, ◌⊕◌, ◌⊖◌, ◌⊗◌, ◌⊘◌, nought, unit}
use navigation.Grid.{Cell, inside}
use navigation.GaussianGrid.{GaussianGrid, Point3}

module _ {F : Type 0} ⦃f : Float F⦄ (g : GaussianGrid F) where
  abbrev pub maxx : F
  maxx = g.minx ⊕ f.lit 2 1 ⊗ g.half_width

  abbrev pub maxy : F
  maxy = g.miny ⊕ f.lit 2 1 ⊗ g.half_width

  -- `none` is `(None, None)`.
  unfoldable pub world_to_index : F → F → Option Cell
  world_to_index x y =
      let c : Cell = (f.trunc ((x ⊖ g.minx) ⊘ g.reso), f.trunc ((y ⊖ g.miny) ⊘ g.reso)) in
      if inside g.cells c then some c else none

  abbrev pub index_to_world : Cell → F × F
  index_to_world c = (f.of_int c.0 ⊗ g.reso ⊕ g.minx, f.of_int c.1 ⊗ g.reso ⊕ g.miny)

  unfoldable pub get_probability : F → F → F
  get_probability x y = elim g.gmap [
    | none ↦ nought
    | some costs ↦ elim (world_to_index x y) [ none ↦ nought | some c ↦ costs c ]
  ]

  unfoldable pub get_height : F → F → Option F
  get_height x y = elim g.hmap [
    | none ↦ none
    | some heights ↦ elim (world_to_index x y) [ none ↦ none | some c ↦ heights c ]
  ]

  unfoldable pub get_voxel : Point3 F → F
  get_voxel (x, y, z) =
      let iz = f.trunc ((z ⊖ g.z_min) ⊘ g.reso) in
      elim g.vmap [
        | none ↦ nought
        | some hit ↦ elim (world_to_index x y) [
          | none ↦ nought
          | some c ↦
              if leb_ℤ (pos 0) iz && ltb_ℤ iz (pos g.cells_z)
              then if hit c iz then unit else nought
              else nought
        ]
      ]
