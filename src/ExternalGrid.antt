-- ===== src/ExternalGrid.antt =====
-- `parse_costmap_raw` and the constructor of `ExternalGridMap` in
-- ros2_ws/src/a_star_mpc_planner/a_star_mpc_planner/external_grid_map.py. Its coordinate helpers are those
-- of Grid. A payload is a list of floats.
pub mod Payload
mod Tests
use package.navigation.Prelude.{
  ℕ, zero, suc, ◌+◌, ◌*◌, Bool, true, false, not, Option, none, some, List, [], ◌∷◌, ℤ, pos, negsuc,
  pos_part, leb_ℤ, ltb, ◌==◌, if◌then◌else◌, length,
}
use package.navigation.Float.{Float, nought}
use package.navigation.Grid.{Cell, GridMap}

-- The three ways to raise `ValueError`.
pub data Malformed : Type 0 where
  no_meta : Malformed
  non_positive : ℤ → Malformed
  -- the length, and the number of cells that it does not fit
  wrong_length : ℕ → ℕ → Malformed

pub data Parsed (F : Type 0) : Type 0 where
  malformed : Malformed → Parsed F
  parsed : GridMap F → Parsed F

module _ {F : Type 0} ⦃f : Float F⦄ where
  -- `arr[k]`, for an index in range.
  abbrev pub nth : List F → ℕ → F
  nth [] k = nought
  nth (x ∷ xs) zero = x
  nth (x ∷ xs) (suc k) = nth xs k

  -- `arr[4:].reshape(cells, cells)[ix, iy]`
  abbrev pub reshaped : ℕ → List F → Cell → F
  reshaped cells values (pos ix, pos iy) = nth values (ix * cells + iy)
  reshaped cells values _ = nought

  unfoldable pub external_grid : List F → F → F → F → ℕ → GridMap F
  external_grid values minx miny reso cells = record {
    gmap = reshaped cells values;
    hmap = none;
    cells = cells;
    reso = reso;
    minx = minx;
    miny = miny;
  }

  unfoldable pub parse_costmap_raw : List F → Parsed F
  unfolding external_grid
  parse_costmap_raw (minx ∷ miny ∷ reso ∷ count ∷ values) =
      let cells = f.round count in
      let n = pos_part cells in
      if leb_ℤ cells (pos 0)
      then malformed (non_positive cells)
      else if not (4 + length values == 4 + n * n)
      then malformed (wrong_length (4 + length values) n)
      else parsed (external_grid values minx miny reso n)
  parse_costmap_raw _ = malformed no_meta
