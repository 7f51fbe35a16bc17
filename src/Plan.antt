-- ===== src/Plan.antt =====
-- The rest of `AStarPlanner` (ros2_ws/src/a_star_mpc_planner/a_star_mpc_planner/a_star_planner.py):
-- the choice of the local goal, the line of sight, the shortcutting of a path, and `plan` itself.
pub mod Sight
pub mod Shortcut
pub mod Nearest
pub mod Route
pub mod Corner
mod Tests
use package.navigation.Prelude.{
  ℕ, zero, suc, ◌+◌, ◌*◌, Bool, true, false, ◌&&◌, not, Option, none, some, List, [], ◌∷◌, ◌++◌,
  map, ℤ, pos, negsuc, sub_ℕ, ◌+ℤ◌, ◌-ℤ◌, ltb_ℤ, eqb_ℤ, if◌then◌else◌, leb,
}
use package.navigation.Float.{Float, ◌⊕◌, ◌⊖◌, ◌⊗◌, ◌⊘◌, nought, unit, fmax, fmin}
use package.navigation.Grid.{Cell, GridMap, inside, world_to_index, index_to_world}
use package.navigation.AStar.{
  Planner, PriorityQueue, Entry, Outcome, found, no_path, stuck, is_free, is_visited, eq_cell,
  abs_diff, motion, a_star,
}

-- Python's `max(a, b)` and `min(a, b)` on integers.
abbrev pub max_ℤ : ℤ → ℤ → ℤ
max_ℤ a b = if ltb_ℤ a b then b else a

abbrev pub min_ℤ : ℤ → ℤ → ℤ
min_ℤ a b = if ltb_ℤ b a then b else a

abbrev pub longer : ℕ → ℕ → ℕ
longer a b = if leb a b then b else a

-- The loop of `_line_of_sight` over `x, y, err`, with `none` when the fuel runs out.
module _ (free : Cell → Bool) (x1 y1 : ℤ) (dx dy : ℕ) (sx sy : ℤ) where
  unfoldable pub sight_loop : ℕ → ℤ → ℤ → ℤ → Option Bool
  sight_loop zero x y err = none
  sight_loop (suc fuel) x y err =
      let e2 = err +ℤ err in
      let right = ltb_ℤ (sub_ℕ 0 dy) e2 in
      let up = ltb_ℤ e2 (pos dx) in
      let err' = if right then err -ℤ pos dy else err in
      let rest =
        sight_loop fuel (if right then x +ℤ sx else x) (if up then y +ℤ sy else y)
          (if up then err' +ℤ pos dx else err') in
      if not (free (x, y)) then some false else if eqb_ℤ x x1 && eqb_ℤ y y1 then some true else rest

unfoldable pub line_of_sight : (Cell → Bool) → Cell → Cell → Option Bool
unfolding sight_loop
line_of_sight free (x0, y0) (x1, y1) =
    let dx = abs_diff x0 x1 in
    let dy = abs_diff y0 y1 in
    let sx = if ltb_ℤ x0 x1 then pos 1 else negsuc 0 in
    let sy = if ltb_ℤ y0 y1 then pos 1 else negsuc 0 in
    sight_loop free x1 y1 dx dy sx sy (longer dx dy + 1) x0 y0 (sub_ℕ dx dy)

-- The loop of `_shortcut_path` at `path_grid[i]`, with what follows it, and the points it appends.
unfoldable pub pull : (Cell → Bool) → Cell → Cell → List Cell → List Cell
unfolding line_of_sight
pull free anchor at [] = at ∷ []
pull free anchor at (next ∷ rest) = elim (line_of_sight free anchor next) [
  | some true ↦ pull free anchor next rest
  | some false ↦ at ∷ pull free at next rest
  | none ↦ at ∷ pull free at next rest
]

unfoldable pub shortcut_path : (Cell → Bool) → List Cell → List Cell
unfolding pull
shortcut_path free [] = []
shortcut_path free (a ∷ []) = a ∷ []
shortcut_path free (a ∷ b ∷ []) = a ∷ b ∷ []
shortcut_path free (a ∷ b ∷ c ∷ rest) = a ∷ pull free a b (c ∷ rest)

-- `_nearest_free`: the motion loop, which queues the cells that are new, and the `while` loop.
-- `none` is `(None, None)`; the outer `none` is a loop of the model that ran out of fuel.
module _ {F : Type 0} (free : Cell → Bool) (cells : ℕ) (motions : List (ℤ × ℤ × F)) where
  unfoldable pub spread : Cell → List (ℤ × ℤ × F) → List Cell → List Cell → List Cell × List Cell
  unfolding is_visited inside
  spread c [] visited queue = (visited, queue)
  spread (cx, cy) ((ddx, ddy, cost) ∷ ms) visited queue =
      let n : Cell = (cx +ℤ ddx, cy +ℤ ddy) in
      let new = not (is_visited n visited) && inside cells n in
      spread (cx, cy) ms (if new then n ∷ visited else visited)
        (if new then queue ++ (n ∷ []) else queue)

  unfoldable pub nearest_loop : ℕ → List Cell → List Cell → Option (Option Cell)
  unfolding spread
  nearest_loop fuel visited [] = some none
  nearest_loop zero visited (c ∷ queue) = none
  nearest_loop (suc fuel) visited (c ∷ queue) = elim (free c) [
    | true ↦ some (some c)
    | false ↦ let grown = spread c motions visited queue in nearest_loop fuel grown.0 grown.1
  ]

module _ {F : Type 0} ⦃f : Float F⦄ where
  -- Clipping of the ray to the grid.
  unfoldable pub ray_grid_boundary : GridMap F → Cell → Cell → Cell
  ray_grid_boundary g (six, siy) (gix, giy) =
      let top = pos g.cells -ℤ pos 1 in
      let ddx = gix -ℤ six in
      let ddy = giy -ℤ siy in
      let ratio = λ (a b : ℤ). f.of_int a ⊘ f.of_int b in
      let t_max =
        if ltb_ℤ (pos 0) ddx
        then fmax nought (fmin unit (ratio (top -ℤ six) ddx))
        else if ltb_ℤ ddx (pos 0)
        then fmax nought (fmin unit (ratio (pos 0 -ℤ six) ddx))
        else unit in
      let t_from_y =
        if ltb_ℤ (pos 0) ddy
        then fmin unit (ratio (top -ℤ siy) ddy)
        else if ltb_ℤ ddy (pos 0)
        then fmin unit (ratio (pos 0 -ℤ siy) ddy)
        else unit in
      let t = fmin t_max t_from_y ⊗ f.lit 97 100 in
      let bix = f.trunc (f.of_int six ⊕ t ⊗ f.of_int ddx) in
      let biy = f.trunc (f.of_int siy ⊕ t ⊗ f.of_int ddy) in
      (max_ℤ (pos 0) (min_ℤ bix top), max_ℤ (pos 0) (min_ℤ biy top))

  module _ (p : Planner F) (g : GridMap F) where
    unfoldable pub nearest_free : Cell → Option (Option Cell)
    unfolding nearest_loop
    nearest_free c =
        nearest_loop (is_free p g) g.cells (motion {F = F}) (g.cells * g.cells + 1) (c ∷ [])
          (c ∷ [])

    unfoldable pub local_goal : Cell → F → F → Option (Option Cell)
    local_goal here gx gy =
        let oob : Cell = (f.trunc ((gx ⊖ g.minx) ⊘ g.reso), f.trunc ((gy ⊖ g.miny) ⊘ g.reso)) in
        let border = ray_grid_boundary g here oob in
        elim (world_to_index g gx gy) [
          | some c ↦ if is_free p g c then some (some c) else nearest_free c
          | none ↦ if is_free p g border then some (some border) else nearest_free border
        ]

-- What `plan` gives: waypoints, `None`, or a loop of the model that ran out of fuel.
pub data Planned (F : Type 0) : Type 0 where
  waypoints : List (F × F) → Planned F
  no_plan : Planned F
  out_of_fuel : Planned F

module _ {F : Type 0} ⦃f : Float F⦄ (p : Planner F) (q : PriorityQueue (Entry F)) where
  -- From the search on.
  unfoldable pub plan_path : GridMap F → Cell → Cell → Planned F
  plan_path g here goal =
      if eq_cell here goal
      then waypoints (index_to_world g here ∷ [])
      else elim (a_star p g q goal here) [
        | found path ↦ waypoints (map (index_to_world g) (shortcut_path (is_free p g) path))
        | no_path ↦ no_plan
        | stuck ↦ out_of_fuel
      ]

  -- `none` for the map is `gmap is None`.
  unfoldable pub plan : Option (GridMap F) → F × F → F × F → Planned F
  plan none at goal = no_plan
  plan (some g) (sx, sy) (gx, gy) = elim (world_to_index g sx sy) [
    | none ↦ no_plan
    | some here ↦ elim (local_goal p g here gx gy) [
      | none ↦ out_of_fuel
      | some none ↦ no_plan
      | some (some goal) ↦ plan_path g here goal
    ]
  ]
