-- ===== src/Plan/Route.antt =====
-- `_ray_grid_boundary`, `_local_goal` and `plan`.
use mathlib.Core.Path.{subst}
use navigation.Prelude.{
  ℕ, ◌<◌, ◌≡◌, refl, sym, ◌⊎◌, inl, inr, Bool, true, false, Option, none, some, List, [], ◌∷◌, map,
  arith, Bool-cases, Option-cases, ℤ, pos, ◌-ℤ◌, if◌then◌else◌,
}
use navigation.Float.{Float}
use navigation.Grid.{Cell, GridMap, inside, world_to_index, index_to_world}
use navigation.AStar.{
  Planner, PriorityQueue, IsQueue, Entry, Outcome, found, no_path, stuck, is_free, eq_cell, a_star,
}
use navigation.AStar.Moves.{Reach, eq_cell→≡}
use navigation.AStar.Search.{Settles, a_star-Settles}
use navigation.Plan.{
  ray_grid_boundary, nearest_free, local_goal, shortcut_path, Planned, waypoints, no_plan,
  out_of_fuel, plan_path, plan, max_ℤ, min_ℤ,
}
use navigation.Plan.Shortcut.{Legs, shortcut_path-Legs}
use navigation.Plan.Nearest.{Finds, nearest_free-Finds}

-- Clamping both coordinates gives a cell of the grid.
clamp-inside :
    (n : ℕ) (a b : ℤ)
    → 0 < n
    → let top = pos n -ℤ pos 1 in
      inside n (max_ℤ (pos 0) (min_ℤ a top), max_ℤ (pos 0) (min_ℤ b top)) ≡ true
unfolding inside ◌-ℤ◌
clamp-inside n a b h = ground arith

cells-pos : (n : ℕ) (c : Cell) → inside n c ≡ true → 0 < n
unfolding inside
cells-pos n c h = ground arith

if_some : (b : Bool) (a c : Cell) → (if b then some a else none) ≡ some c → (b ≡ true) × (a ≡ c)
if_some b a c e = ground arith

module _ {F : Type 0} ⦃f : Float F⦄ where
  ray_grid_boundary-inside :
      (g : GridMap F) (here far : Cell)
      → 0 < g.cells
      → inside g.cells (ray_grid_boundary g here far) ≡ true
  unfolding ray_grid_boundary
  ray_grid_boundary-inside g here far h = clamp-inside g.cells _ _ h

  world_to_index-inside :
      (g : GridMap F) (x y : F) (c : Cell) → world_to_index g x y ≡ some c → inside g.cells c ≡ true
  unfolding world_to_index
  world_to_index-inside g x y c e =
      let (h, same) = if_some _ _ _ e in subst (λ z. inside g.cells z ≡ true) same h

  module _ (p : Planner F) (g : GridMap F) where
    abbrev from_cell : Cell → Option (Option Cell)
    from_cell c = if is_free p g c then some (some c) else nearest_free p g c

    from_cell-Finds :
        (c : Cell) → inside g.cells c ≡ true → Finds (is_free p g) g.cells (from_cell c)
    from_cell-Finds c h = elim (Bool-cases (is_free p g c)) [
      | inl free ↦ rw free (free, h)
      | inr blocked ↦ rw blocked (nearest_free-Finds p g c h)
    ]

    -- On a grid that is not empty, wherever the robot and the global goal are, the choice of the local
    -- goal ends with a free cell of the grid, or with none, and then every cell of the grid is blocked.
    pub local_goal-Finds :
        (here : Cell) (gx gy : F)
        → 0 < g.cells
        → Finds (is_free p g) g.cells (local_goal p g here gx gy)
    unfolding local_goal
    local_goal-Finds here gx gy h = elim (Option-cases (world_to_index g gx gy)) [
      | inl out ↦
          rw (out, local_goal, Finds) (from_cell-Finds _ (ray_grid_boundary-inside g here _ h))
      | inr (c, at) ↦
          rw (at, local_goal, Finds) (from_cell-Finds c (world_to_index-inside g gx gy c at))
    ]

  module _ (p : Planner F) (q : PriorityQueue (Entry F)) (laws : IsQueue q) (g : GridMap F) where
    -- What the answer of `plan` from `at` to `goal` means.
    abbrev pub Plans : F × F → F × F → Planned F → Type 0
    Plans at goal (waypoints ws) =
        (here : Cell) × (target : Cell) × (cs : List Cell) × (world_to_index g at.0 at.1
          ≡ some here)
        × (local_goal p g here goal.0 goal.1 ≡ some (some target))
        × (is_free p g target ≡ true)
        × Legs (is_free p g) here target cs
        × (ws ≡ map (index_to_world g) cs)
    Plans at goal no_plan =
        (world_to_index g at.0 at.1 ≡ none)
        ⊎ ((c : Cell) → inside g.cells c ≡ true → is_free p g c ≡ false)
        ⊎ ((here : Cell) × (target : Cell) × (world_to_index g at.0 at.1 ≡ some here)
            × (local_goal p g here goal.0 goal.1 ≡ some (some target))
            × ¬ Reach (is_free p g) here target)
    Plans at goal out_of_fuel = ⊥

    plan_path-Plans :
        (at goal : F × F) (here target : Cell)
        → world_to_index g at.0 at.1 ≡ some here
        → local_goal p g here goal.0 goal.1 ≡ some (some target)
        → is_free p g target ≡ true
        → Plans at goal (plan_path p q g here target)
    unfolding plan_path
    plan_path-Plans at goal here target placed chosen free =
        elim (Bool-cases (eq_cell here target)) [
          | inl same ↦ rw same (
            here,
            target,
            here ∷ [],
            placed,
            chosen,
            free,
            (refl, sym (eq_cell→≡ here target same)),
            refl,
          )
          | inr apart ↦ rw apart (
              searched (a_star p g q target here) (
                a_star-Settles p g here target q laws
                  (world_to_index-inside g at.0 at.1 here placed)))
        ]
      where
        searched :
            (o : Outcome)
            → Settles p g here target o
            → Plans at goal (elim o [
              | found path ↦ waypoints (map (index_to_world g) (shortcut_path (is_free p g) path))
              | no_path ↦ no_plan
              | stuck ↦ out_of_fuel
            ])
        searched (found path) r = (
          here,
          target,
          shortcut_path (is_free p g) path,
          placed,
          chosen,
          free,
          (shortcut_path-Legs (is_free p g) here target path r).0,
          refl,
        )
        searched no_path r = inr (inr (here, target, placed, chosen, r))
        searched stuck r = r

    -- Whatever the heap does with equal keys, `plan` ends. If it gives waypoints, they are the corners
    -- of cells that lead from the cell of the robot to the chosen target, which is free, by moves of
    -- A* and lines of free cells; if it gives none, then the robot is off the grid, or every cell is
    -- blocked, or no sequence of allowed moves leads from the robot's cell to the chosen target.
    pub plan-Plans : (at goal : F × F) → Plans at goal (plan p q (some g) at goal)
    unfolding plan
    plan-Plans at goal = elim (Option-cases (world_to_index g at.0 at.1)) [
      | inl out ↦ rw (out, plan, Plans) (inl out)
      | inr (here, placed) ↦
          rw (placed, plan, Plans)
            (chosen here placed (local_goal p g here goal.0 goal.1) refl (
              local_goal-Finds p g here goal.0 goal.1
                (cells-pos g.cells here (world_to_index-inside g at.0 at.1 here placed))))
    ]
      where
        chosen :
            (here : Cell)
            → world_to_index g at.0 at.1 ≡ some here
            → (o : Option (Option Cell)) → local_goal p g here goal.0 goal.1 ≡ o
            → Finds (is_free p g) g.cells o
            → Plans at goal (elim o [
              | none ↦ out_of_fuel
              | some none ↦ no_plan
              | some (some target) ↦ plan_path p q g here target
            ])
        chosen here placed none e fd = fd
        chosen here placed (some none) e fd = inr (inl fd)
        chosen here placed (some (some target)) e fd =
            plan_path-Plans at goal here target placed e fd.0
