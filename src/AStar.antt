-- ===== src/AStar.antt =====
-- `AStarPlanner` of ros2_ws/src/a_star_mpc_planner/a_star_mpc_planner/a_star_planner.py. The laws are
-- in the modules below.
pub mod Moves
mod Expand
mod Frontier
pub mod Search
pub mod Tests
mod Queue
use package.navigation.Prelude.{
  ℕ, zero, suc, ◌+◌, ◌-◌, ◌*◌, Bool, true, false, ◌&&◌, ◌||◌, not, Option, none, some, List, [],
  ◌∷◌, ◌++◌, map, ℤ, pos, negsuc, pos_part, neg_part, sub_ℕ, ◌+ℤ◌, ◌-ℤ◌, ltb_ℤ, leb_ℤ, eqb_ℤ,
  if◌then◌else◌, leb,
}
use mathlib.Core.List.{reverse}
use package.navigation.Float.{Float, ◌⊕◌, ◌⊖◌, ◌⊗◌, ◌⊘◌, less, at_most, nought, unit, fmax, fmin}
use package.navigation.Grid.{Cell, GridMap, world_to_index, index_to_world}
unfoldable pub use Queue.{insert_sorted}
pub use Queue.{PriorityQueue, IsQueue, sorted_queue, sorted_queue-IsQueue}

-- A search node: its cell, its cost from the start, and its parent unless it is the first.
pub data Node (F : Type 0) : Type 0 where
  root : Cell → F → Node F
  child : Cell → F → Node F → Node F

abbrev pub cell_of : {F : Type 0} → Node F → Cell
cell_of (root c g) = c
cell_of (child c g p) = c

abbrev pub cost_of : {F : Type 0} → Node F → F
cost_of (root c g) = g
cost_of (child c g p) = g

-- A heap entry `(g + h, node)`.
abbrev pub Entry : Type 0 → Type 0
Entry F = F × Node F

abbrev pub eq_cell : Cell → Cell → Bool
eq_cell (ax, ay) (bx, by) = eqb_ℤ ax bx && eqb_ℤ ay by

pub record Planner (F : Type 0) : Type 0 where
  pub obstacle_threshold : F
  pub obstacle_cost_weight : F
  pub step_over_height : F
  pub step_over_cost_scale : F

-- `stuck` is a loop of the model that ran out of fuel.
pub data Outcome : Type 0 where
  found : List Cell → Outcome
  no_path : Outcome
  stuck : Outcome

-- From the goal back to the start, before `path.reverse()`.
abbrev pub ancestors : {F : Type 0} → Node F → List Cell
ancestors (root c g) = c ∷ []
ancestors (child c g p) = c ∷ ancestors p

unfoldable pub extract_path : {F : Type 0} → Node F → List Cell
extract_path node = reverse (ancestors node)

unfoldable pub is_closed : {F : Type 0} → Cell → List (Cell × F) → Bool
is_closed c [] = false
is_closed c ((k, g) ∷ closed) = eq_cell c k || is_closed c closed

unfoldable pub is_visited : Cell → List Cell → Bool
is_visited c [] = false
is_visited c (k ∷ visited) = eq_cell c k || is_visited c visited

-- `abs(b - a)`
abbrev pub abs_diff : ℤ → ℤ → ℕ
abs_diff a b =
    if ltb_ℤ a b
    then pos_part b + neg_part a - (pos_part a + neg_part b)
    else pos_part a + neg_part b - (pos_part b + neg_part a)

module _ {F : Type 0} ⦃f : Float F⦄ where
  abbrev pub diagonal : F
  diagonal = f.sqrt (f.of_int (pos 2))

  abbrev pub motion : List (ℤ × ℤ × F)
  motion =
      (pos 1, pos 0, unit)
      ∷ (pos 0, pos 1, unit)
      ∷ (negsuc 0, pos 0, unit)
      ∷ (pos 0, negsuc 0, unit)
      ∷ (pos 1, pos 1, diagonal)
      ∷ (pos 1, negsuc 0, diagonal)
      ∷ (negsuc 0, pos 1, diagonal)
      ∷ (negsuc 0, negsuc 0, diagonal)
      ∷ []

  -- `<` on entries, which are tuples: the key first, then `_Node.__lt__`.
  abbrev pub precedes : Entry F → Entry F → Bool
  precedes (k, a) (l, b) = less k l || (not (less l k) && less (cost_of a) (cost_of b))

  unfoldable pub heuristic : Cell → Cell → F → F
  heuristic (ix, iy) (gix, giy) reso = f.hypot (f.of_int (gix -ℤ ix)) (f.of_int (giy -ℤ iy)) ⊗ reso

  module _ (p : Planner F) (g : GridMap F) where
    unfoldable pub is_steppable : Cell → Bool
    is_steppable c = if at_most p.step_over_height nought then false else elim g.hmap [
      | none ↦ false
      | some layer ↦ elim (layer c) [ none ↦ false | some z ↦ less z p.step_over_height ]
    ]

    unfoldable pub is_free : Cell → Bool
    unfolding is_steppable
    is_free (ix, iy) =
        if ltb_ℤ ix (pos 0) || leb_ℤ (pos g.cells) ix || ltb_ℤ iy (pos 0) || leb_ℤ (pos g.cells) iy
        then false
        else if less (g.gmap (ix, iy)) p.obstacle_threshold
        then true
        else is_steppable (ix, iy)

    unfoldable pub cell_cost : Cell → F
    cell_cost c =
        let prob = g.gmap c in
        let normalized = prob ⊘ p.obstacle_threshold in
        if at_most p.obstacle_threshold prob && is_steppable c
        then unit ⊕ p.obstacle_cost_weight ⊗ p.step_over_cost_scale
        else unit ⊕ p.obstacle_cost_weight ⊗ (normalized ⊗ normalized)

    -- The guards of one round of the motion loop, up to the test of `closed`.
    unfoldable pub may_move : Cell → ℤ → ℤ → Bool
    may_move (ix, iy) ddx ddy =
        if not (is_free (ix +ℤ ddx, iy +ℤ ddy))
        then false
        else if not (eqb_ℤ ddx (pos 0)) && not (eqb_ℤ ddy (pos 0))
        then not (not (is_free (ix +ℤ ddx, iy)) || not (is_free (ix, iy +ℤ ddy)))
        else true

    module _ (q : PriorityQueue (Entry F)) (goal : Cell) where
      -- One round of the motion loop.
      unfoldable pub try_motion : Node F → List (Cell × F) → ℤ × ℤ × F → q.Heap → q.Heap
      unfolding may_move is_closed
      try_motion current closed (ddx, ddy, move_cost) heap =
          let here = cell_of current in
          let n : Cell = (here.0 +ℤ ddx, here.1 +ℤ ddy) in
          let ng = cost_of current ⊕ move_cost ⊗ g.reso ⊗ cell_cost n in
          if not (may_move here ddx ddy)
          then heap
          else if is_closed n closed
          then heap
          else q.push (ng ⊕ heuristic n goal g.reso, child n ng current) heap

      unfoldable pub expand : Node F → List (Cell × F) → List (ℤ × ℤ × F) → q.Heap → q.Heap
      unfolding try_motion
      expand current closed [] heap = heap
      expand current closed (m ∷ ms) heap =
          expand current closed ms (try_motion current closed m heap)

      -- The `while` loop.
      unfoldable pub search_loop : ℕ → q.Heap → List (Cell × F) → Outcome
      unfolding expand extract_path
      search_loop zero heap closed = stuck
      search_loop (suc fuel) heap closed = elim (q.pop heap) [
        | none ↦ no_path
        | some ((k, current), rest) ↦ elim (is_closed (cell_of current) closed) [
          | true ↦ search_loop fuel rest closed
          | false ↦
              let closed' = (cell_of current, cost_of current) ∷ closed in
              elim (eq_cell (cell_of current) goal) [
                | true ↦ found (extract_path current)
                | false ↦ search_loop fuel (expand current closed' motion rest) closed'
              ]
        ]
      ]

      unfoldable pub a_star : Cell → Outcome
      unfolding search_loop heuristic
      a_star from =
          search_loop (8 * (g.cells * g.cells) + 2)
            (q.push (heuristic from goal g.reso, root from nought) q.empty) []
