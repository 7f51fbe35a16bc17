-- ===== src/Plan/Nearest.antt =====
-- `_nearest_free` ends; it finds a free cell of the grid, or every cell of the grid is blocked.
mod Connected
mod Spread
use navigation.Prelude.{
  ℕ, zero, suc, ◌+◌, ◌*◌, ◌≤◌, ◌<◌, ◌≡◌, ◌≢◌, refl, sym, ◌⊎◌, inl, inr, Bool, true, false, Option,
  none, some, List, [], ◌∷◌, length, ◌∈◌, arith, Bool-cases, ℤ, pos,
}
use mathlib.Core.Path.{subst}
use navigation.Float.{Float}
use navigation.Grid.{Cell, GridMap, inside}
use navigation.Grid.Cells.{
  all_cells, length-all_cells, unmarked, unmarked-le-length, unmarked-lt, mem-all_cells,
}
use navigation.AStar.{Planner, is_free, is_visited, eq_cell, motion}
use navigation.AStar.Moves.{IsNear, eq_cell_refl, eq_cell→≡, near-motion, inside_of_free}
use navigation.Plan.{spread, nearest_loop, nearest_free}
use Connected.{all_of_start}
use Spread.{
  unvisited, spread_grows, spread_keeps, spread_queued, spread_fresh, spread_within, spread_reaches,
  spread_measure,
}

module _ (free : Cell → Bool) (cells : ℕ) where
  -- What the answer says of the grid.
  abbrev pub Finds : Option (Option Cell) → Type 0
  Finds none = ⊥
  Finds (some none) = (c : Cell) → inside cells c ≡ true → free c ≡ false
  Finds (some (some c)) = (free c ≡ true) × (inside cells c ≡ true)

module _ (free : Cell → Bool) (cells : ℕ) (from : Cell) where
  -- A cell that was taken off the queue is blocked, and its neighbours on the grid are visited.
  abbrev IsDone : List Cell → Cell → Type 0
  IsDone visited c =
      (free c ≡ false)
      × ((n : Cell) → IsNear c n → c ≢ n → inside cells n ≡ true → is_visited n visited ≡ true)

  record Inv (visited queue : List Cell) : Type 0 where
    within : (c : Cell) → is_visited c visited ≡ true → inside cells c ≡ true
    queued : (c : Cell) → c ∈ queue → is_visited c visited ≡ true
    settled : (c : Cell) → is_visited c visited ≡ true → (c ∈ queue) ⊎ IsDone visited c
    begun : is_visited from visited ≡ true

  -- With the queue empty the whole grid is visited, and blocked.
  Inv-empty : (visited : List Cell) → Inv visited [] → Finds free cells (some none)
  Inv-empty visited i c ic = (done c (everywhere c ic)).0
    where
      done : (k : Cell) → is_visited k visited ≡ true → IsDone visited k
      done k h = elim (i.settled k h) [ inl m ↦ absurd m | inr d ↦ d ]

      everywhere : (k : Cell) → inside cells k ≡ true → is_visited k visited ≡ true
      everywhere =
          all_of_start cells (λ k. is_visited k visited) (λ a b h n ne ib. (done a h).1 b n ne ib)
            from (i.within from i.begun) i.begun

module _ {F : Type 0} ⦃f : Float F⦄ (p : Planner F) (g : GridMap F) (from : Cell) where
  abbrev free : Cell → Bool
  free = is_free p g

  abbrev grown : Cell → List Cell → List Cell → List Cell × List Cell
  grown c visited queue = spread free g.cells (motion {F = F}) c motion visited queue

  -- One round at a blocked cell.
  Inv-spread :
      (c : Cell) (visited queue : List Cell)
      → free c ≡ false
      → Inv free g.cells from visited (c ∷ queue)
      → Inv free g.cells from (grown c visited queue).0 (grown c visited queue).1
  Inv-spread c visited queue blocked i = record {
    within = spread_within free g.cells motion c motion visited queue i.within;
    queued = spread_queued free g.cells motion c motion visited queue (λ x m. i.queued x (inr m));
    settled = λ x h. elim (spread_fresh free g.cells motion c motion visited queue x h) [
      | inr waiting ↦ inl waiting
      | inl old ↦ elim (i.settled x old) [
        | inl (inl same) ↦ inr (subst (IsDone free g.cells from after) (sym same) here)
        | inl (inr waiting) ↦
            inl (spread_keeps free g.cells motion c motion visited queue x waiting)
        | inr d ↦ inr (
          d.0,
          λ n near ne k.
              spread_grows free g.cells motion c motion visited queue n (d.1 n near ne k),
        )
      ]
    ];
    begun = spread_grows free g.cells motion c motion visited queue from i.begun;
  }
    where
      after : List Cell
      after = (grown c visited queue).0

      here : IsDone free g.cells from after c
      here = (
        blocked,
        λ n near ne k.
            let (m, at, e) = near-motion F c n near ne in
            subst (λ z. is_visited z after ≡ true) (sym e)
              (spread_reaches free g.cells motion c motion visited queue m at
                (subst (λ z. inside g.cells z ≡ true) e k)),
      )

  nearest_loop-Finds :
      (fuel : ℕ) (visited queue : List Cell)
      → Inv free g.cells from visited queue
      → unvisited g.cells visited + length queue ≤ fuel
      → Finds free g.cells (nearest_loop free g.cells (motion {F = F}) fuel visited queue)
  unfolding nearest_loop
  nearest_loop-Finds zero visited [] i enough = Inv-empty free g.cells from visited i
  nearest_loop-Finds (suc fuel) visited [] i enough = Inv-empty free g.cells from visited i
  nearest_loop-Finds zero visited (c ∷ queue) i enough = absurd (omega arith)
  nearest_loop-Finds (suc fuel) visited (c ∷ queue) i enough = elim (Bool-cases (free c)) [
    | inl open_cell ↦
        rw (open_cell, nearest_loop, Finds) (open_cell, i.within c (i.queued c (inl refl)))
    | inr blocked ↦
        rw (blocked, nearest_loop, Finds)
          (nearest_loop-Finds fuel _ _ (Inv-spread c visited queue blocked i)
            (omega (arith, spread_measure free g.cells motion c motion visited queue)))
  ]

  Inv-init : inside g.cells from ≡ true → Inv free g.cells from (from ∷ []) (from ∷ [])
  unfolding is_visited
  Inv-init h = record {
    within = λ c v. ground (arith, eq_cell→≡ c from);
    queued = λ c m. elim m [ inl same ↦ rw (same, eq_cell_refl from) | inr n ↦ absurd n ];
    settled = λ c v. inl (inl (ground (arith, eq_cell→≡ c from)));
    begun = rw (eq_cell_refl from);
  }

  -- From a cell of the grid the search ends; the cell that it returns is free and on the grid, and
  -- it returns none only if every cell of the grid is blocked.
  pub nearest_free-Finds : inside g.cells from ≡ true → Finds free g.cells (nearest_free p g from)
  unfolding nearest_free unvisited
  nearest_free-Finds h =
      nearest_loop-Finds (g.cells * g.cells + 1) (from ∷ []) (from ∷ []) (Inv-init h) (
        omega (
          arith,
          unmarked-le-length (λ c. is_visited c (from ∷ [])) (all_cells g.cells),
          length-all_cells g.cells,
        ))
