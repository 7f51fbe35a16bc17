-- ===== src/AStar/Search.antt =====
-- `_a_star` decides whether the goal is reachable, and a path that it finds is a route of moves.
use navigation.Prelude.{
  ℕ, zero, suc, ◌+◌, ◌*◌, ◌<◌, ◌≡◌, refl, ap, inl, inr, true, false, List, [], ◌∷◌, length, ◌∈◌,
  arith, Bool-cases, Option-cases,
}
use mathlib.Core.Path.{subst}
use navigation.Float.{Float, nought}
use navigation.Grid.{Cell, GridMap, inside}
use navigation.Grid.Cells.{all_cells, length-all_cells, unmarked-le-length}
use navigation.AStar.{
  root, Entry, cell_of, cost_of, Planner, PriorityQueue, IsQueue, Outcome, found, no_path, stuck,
  is_free, is_closed, eq_cell, search_loop, a_star, motion, heuristic, extract_path,
}
use navigation.AStar.Moves.{Route, Reach, eq_cell→≡}
use navigation.AStar.Expand.{extract_path-Route, IsRouted-inside, length-expand}
use navigation.AStar.Frontier.{Inv, unclosed, unclosed-cons, Reach-closed, Inv-skip, Inv-close}

module _ {F : Type 0} ⦃f : Float F⦄ (p : Planner F) (g : GridMap F) (from goal : Cell) where
  -- What a search that ends says.
  abbrev pub Settles : Outcome → Type 0
  Settles (found path) = Route (is_free p g) from goal path
  Settles no_path = ¬ Reach (is_free p g) from goal
  Settles stuck = ⊥

  module _ (q : PriorityQueue (Entry F)) (laws : IsQueue q)
      (start_inside : inside g.cells from ≡ true) where
    open laws use {mem-pop, length-pop, pop_none, length-push, mem-push, entries-empty}

    not_closed :
        (c : Cell) (closed : List (Cell × F))
        → is_closed c closed ≡ true
        → is_closed c closed ≡ false
        → ⊥
    not_closed c closed h k = ground arith

    only : (k : Entry F) (e : Entry F) → e ∈ q.entries (q.push k q.empty) → e ≡ k
    only k e m = elim ((mem-push k e q.empty).0 m) [
      | inl same ↦ same
      | inr none_left ↦ absurd (subst (λ l. e ∈ l) entries-empty none_left)
    ]

    search_loop-Settles :
        (fuel : ℕ) (h : q.Heap) (closed : List (Cell × F))
        → Inv p g q from goal h closed
        → 8 * unclosed p g q from goal closed + length (q.entries h) < fuel
        → Settles (search_loop p g q goal fuel h closed)
    unfolding search_loop
    search_loop-Settles zero h closed i enough = absurd (omega arith)
    search_loop-Settles (suc fuel) h closed i enough = elim (Option-cases (q.pop h)) [
      | inl e ↦
          rw (e, search_loop, Settles)
            (λ r.
              not_closed goal closed (Reach-closed p g q from goal h closed i (pop_none h e) goal r)
                i.sought)
      | inr ((e, rest), popped) ↦
          let shorter = length-pop h e rest popped in
          let routed = i.routed e ((mem-pop h e rest popped e).1 (inl refl)) in
          elim (Bool-cases (is_closed (cell_of e.1) closed)) [
            | inl old ↦
                rw (popped, old, search_loop, Settles)
                  (search_loop-Settles fuel rest closed
                    (Inv-skip p g q from goal laws h rest e closed popped old i) (omega arith))
            | inr fresh ↦ elim (Bool-cases (eq_cell (cell_of e.1) goal)) [
              | inl at ↦
                  rw (popped, fresh, at, search_loop, Settles)
                    (subst (λ z. Route (is_free p g) from z (extract_path e.1))
                      (eq_cell→≡ (cell_of e.1) goal at) (extract_path-Route p g from e.1 routed))
              | inr other ↦
                  rw (popped, fresh, other, search_loop, Settles)
                    (search_loop-Settles fuel _ _
                      (Inv-close p g q from goal laws h rest e closed popped other i)
                      (omega (
                        arith,
                        length-expand p g q laws goal e.1 ((cell_of e.1, cost_of e.1) ∷ closed)
                            motion rest,
                        unclosed-cons p g q from goal (cell_of e.1) (cost_of e.1) closed
                            (IsRouted-inside p g from e.1 start_inside routed) fresh,
                      )))
            ]
          ]
    ]

    Inv-init : (k : F) → Inv p g q from goal (q.push (k, root from nought) q.empty) []
    unfolding is_closed
    Inv-init k = record {
      routed = λ e m. rw (only _ e m) refl;
      begun = inr ((k, root from nought), (mem-push _ _ _).1 (inl refl), refl);
      frontier = λ a b c m. cc;
      sought = refl;
    }

    -- For a start on the grid, whatever the heap does with equal keys: the search ends, a path that
    -- it finds is a route of allowed moves from the start to the goal, and if it finds none then no
    -- sequence of allowed moves leads to the goal.
    pub a_star-Settles : Settles (a_star p g q goal from)
    unfolding a_star unclosed
    a_star-Settles = search_loop-Settles (8 * (g.cells * g.cells) + 2) _ [] (Inv-init _) (
        omega (
          arith,
          unmarked-le-length (λ c. is_closed {F = F} c []) (all_cells g.cells),
          length-all_cells g.cells,
          length-push (heuristic from goal g.reso, root from nought) q.empty,
          ap length entries-empty,
        ))
