-- ===== src/GlobalCostmap.antt =====
-- `GlobalCostmap` of ros2_ws/src/a_star_mpc_planner/a_star_mpc_planner/global_costmap.py. An array over the
-- grid is a function of the cell, read at the grid's cells only. SciPy's `distance_transform_edt` and
-- `np.exp` are parameters.
pub mod Costs
pub mod Breadcrumb
mod Tests
use package.navigation.Prelude.{
  larger, smaller, ℕ, zero, suc, Bool, true, false, ◌&&◌, ◌||◌, not, Option, none, some, List, [],
  ◌∷◌, ℤ, pos, pos_part, ◌+ℤ◌, ◌-ℤ◌, leb_ℤ, ltb_ℤ, eqb_ℤ, if◌then◌else◌,
}
use package.navigation.Float.{
  Float, ◌⊕◌, ◌⊖◌, ◌⊗◌, ◌⊘◌, at_most, less, nought, unit, negate, fmax, fmin,
}
unfoldable use package.navigation.Grid.{inside}
use package.navigation.Grid.{Cell, GridMap}

-- `_occ`, `_free` and `gmap`, which the first `set_origin` allocates.
pub record Layers (F : Type 0) : Type 0 where
  pub occ : Cell → F
  pub free : Cell → Bool
  pub gmap : Cell → F

pub record GlobalCostmap (F : Type 0) : Type 0 where
  pub reso : F
  pub half_width : F
  pub robot_radius : F
  pub inflation_radius : F
  pub soft_cost_max : F
  pub hit_threshold : F
  pub hit_cap : F
  pub decay : F
  pub free_radius : F
  pub cells : ℕ
  pub minx : F
  pub miny : F
  pub layers : Option (Layers F)

-- `.any()` of a mask, row by row.
abbrev pub any_row : (Cell → Bool) → ℕ → ℕ → Bool
any_row mask i zero = false
any_row mask i (suc j) = mask (pos i, pos j) || any_row mask i j

abbrev pub any_rows : (Cell → Bool) → ℕ → ℕ → Bool
any_rows mask n zero = false
any_rows mask n (suc i) = any_row mask i n || any_rows mask n i

abbrev pub is_hit : List Cell → Cell → Bool
is_hit [] c = false
is_hit (h ∷ hs) c = (eqb_ℤ h.0 c.0 && eqb_ℤ h.1 c.1) || is_hit hs c

module _ {F : Type 0} ⦃f : Float F⦄ where
  -- `__init__`, for a width and a resolution above 0.
  unfoldable pub init : F → F → F → F → F → F → F → F → F → GlobalCostmap F
  init reso half_width robot_radius inflation_radius soft_cost_max hit_threshold hit_cap decay
        free_radius =
      record {
        reso = reso;
        half_width = half_width;
        robot_radius = robot_radius;
        inflation_radius = fmax inflation_radius robot_radius;
        soft_cost_max = fmin (fmax soft_cost_max nought) (f.lit 499 1000);
        hit_threshold = hit_threshold;
        hit_cap = hit_cap;
        decay = decay;
        free_radius = free_radius;
        cells = pos_part (f.round (f.lit 2 1 ⊗ half_width ⊘ reso));
        minx = nought;
        miny = nought;
        layers = none;
      }

  -- The layers after `set_origin`, and the origin.
  unfoldable pub set_origin : F × F → GlobalCostmap F → GlobalCostmap F × Layers F
  set_origin (x, y) g = elim g.layers [
    | some l ↦ (g, l)
    | none ↦
        let zeros : Layers F = record {
          occ = λ c. nought;
          free = λ c. false;
          gmap = λ c. nought;
        } in
        (record g { minx = x ⊖ g.half_width; miny = y ⊖ g.half_width; layers = some zeros }, zeros)
  ]

  -- The cells on which `_stamp_disk` calls its function.
  unfoldable pub stamp_disk : GlobalCostmap F → F × F → F → Cell → Bool
  stamp_disk g (x, y) radius (gx, gy) =
      let cx = (x ⊖ g.minx) ⊘ g.reso in
      let cy = (y ⊖ g.miny) ⊘ g.reso in
      let r = larger (pos 1) (f.round (radius ⊘ g.reso)) in
      let from = λ (c : F). larger (pos 0) (f.trunc c -ℤ r) in
      let until = λ (c : F). smaller (pos g.cells) (f.trunc c +ℤ r +ℤ pos 1) in
      let dx = f.of_int gx ⊖ cx in
      let dy = f.of_int gy ⊖ cy in
      leb_ℤ (from cx) gx
      && ltb_ℤ gx (until cx)
      && leb_ℤ (from cy) gy
      && ltb_ℤ gy (until cy)
      && at_most (dx ⊗ dx ⊕ dy ⊗ dy) (f.of_int r ⊗ f.of_int r)

  -- The cells of the points that lie in the grid.
  unfoldable pub hit_cells : GlobalCostmap F → List (F × F) → List Cell
  unfolding inside
  hit_cells g [] = []
  hit_cells g ((x, y) ∷ pts) =
      let rest = hit_cells g pts in
      let c : Cell = (f.trunc ((x ⊖ g.minx) ⊘ g.reso), f.trunc ((y ⊖ g.miny) ⊘ g.reso)) in
      if inside g.cells c then c ∷ rest else rest

  -- One hit for each cell of the frame; a frame with no point in the grid changes nothing.
  unfoldable pub add_hits : F → List Cell → (Cell → F) → Cell → F
  add_hits cap [] occ c = occ c
  add_hits cap (h ∷ hs) occ c = fmin (occ c ⊕ (if is_hit (h ∷ hs) c then unit else nought)) cap

  unfoldable pub update : Option (List (F × F)) → F × F → GlobalCostmap F → GlobalCostmap F
  unfolding set_origin stamp_disk hit_cells add_hits
  update points robot_xy g =
      let (g', l) = set_origin robot_xy g in
      let faded : Cell → F = λ c. if less g.decay unit then l.occ c ⊗ g.decay else l.occ c in
      let hits = elim points as (λ _. List Cell) [ none ↦ [] | some pts ↦ hit_cells g' pts ] in
      record g' {
        layers = some (record l {
          free = λ c. stamp_disk g' robot_xy g'.free_radius c || l.free c;
          occ = add_hits g'.hit_cap hits faded;
        });
      }

  -- The frames of a drive.
  unfoldable pub updates :
      List (Option (List (F × F)) × (F × F)) → GlobalCostmap F → GlobalCostmap F
  unfolding update
  updates [] g = g
  updates ((points, robot_xy) ∷ frames) g = updates frames (update points robot_xy g)

  abbrev pub occupied : GlobalCostmap F → Layers F → Cell → Bool
  occupied g l c = at_most g.hit_threshold (l.occ c) && not (l.free c)

  -- `edt n mask c` is the distance of the cell from the nearest one that the mask leaves out.
  abbrev pub min_d : (ℕ → (Cell → Bool) → Cell → F) → GlobalCostmap F → Layers F → Cell → F
  min_d edt g l c = edt g.cells (λ c'. not (occupied g l c')) c ⊗ g.reso

  -- The cost outside the lethal cells.
  abbrev pub band_cost : (F → F) → GlobalCostmap F → F → F
  band_cost exp g d =
      let decay_len = fmax ((g.inflation_radius ⊖ g.robot_radius) ⊘ f.lit 3 1) (f.lit 1 1000) in
      if less g.robot_radius g.inflation_radius && at_most d g.inflation_radius
      then g.soft_cost_max ⊗ exp (negate (d ⊖ g.robot_radius) ⊘ decay_len)
      else nought

  module _ (edt : ℕ → (Cell → Bool) → Cell → F) (exp : F → F) where
    unfoldable pub built : GlobalCostmap F → Layers F → Cell → F
    built g l c =
        if any_rows (occupied g l) g.cells g.cells
        then if l.free c
          then nought
          else if at_most (min_d edt g l c) g.robot_radius
          then unit
          else band_cost exp g (min_d edt g l c)
        else nought

    unfoldable pub build : GlobalCostmap F → GlobalCostmap F
    unfolding built
    build g = elim g.layers [
      | none ↦ g
      | some l ↦ record g { layers = some (record l { gmap = built g l }) }
    ]
