-- ===== src/AStar/Frontier.antt =====
-- The invariant of the `while` loop of `_a_star`: entries are routed, and every neighbour of a closed
-- cell that a move leads to is closed or waits in the heap.
use navigation.Prelude.{
  ℕ, ◌<◌, ◌≡◌, refl, sym, ap, ◌∙◌, ◌⊎◌, inl, inr, true, false, some, List, [], ◌∷◌, ◌∈◌, arith,
}
use mathlib.Core.Path.{subst}
use navigation.Float.{Float}
use navigation.Grid.{Cell, GridMap, inside}
use navigation.Grid.Cells.{all_cells, mem-all_cells, unmarked, unmarked-lt}
use navigation.AStar.{
  Entry, cell_of, cost_of, Planner, PriorityQueue, IsQueue, is_free, is_closed, eq_cell, expand,
  motion,
}
use navigation.AStar.Moves.{
  Move, Reach, here, step, motion-IsStep, near-motion, eq_cell→≡, eq_cell_refl,
}
use navigation.AStar.Expand.{IsRouted, expand-keeps, expand-IsPending, expand-IsRouted}

module _ {F : Type 0} ⦃f : Float F⦄ (p : Planner F) (g : GridMap F) (q : PriorityQueue (Entry F))
    (from goal : Cell) where
  abbrev pub Closed : Type 0
  Closed = List (Cell × F)

  -- `c` is closed, or waits in the heap.
  abbrev pub Pending : q.Heap → Closed → Cell → Type 0
  Pending h closed c =
      (is_closed c closed ≡ true) ⊎ ((e : Entry F) × (e ∈ q.entries h) × (cell_of e.1 ≡ c))

  pub record Inv (h : q.Heap) (closed : Closed) : Type 0 where
    pub routed : (e : Entry F) → e ∈ q.entries h → IsRouted p g from e.1
    pub begun : Pending h closed from
    pub frontier :
        (a b : Cell) → is_closed a closed ≡ true → Move (is_free p g) a b → Pending h closed b
    pub sought : is_closed goal closed ≡ false

  unfoldable pub unclosed : Closed → ℕ
  unclosed closed = unmarked (λ c. is_closed c closed) (all_cells g.cells)

  is_closed-cons :
      (c k : Cell) (w : F) (closed : Closed)
      → is_closed c closed ≡ true
      → is_closed c ((k, w) ∷ closed) ≡ true
  unfolding is_closed
  is_closed-cons c k w closed h = ground arith

  is_closed-cons_self : (c : Cell) (w : F) (closed : Closed) → is_closed c ((c, w) ∷ closed) ≡ true
  unfolding is_closed
  is_closed-cons_self c w closed = rw (eq_cell_refl c)

  is_closed-cons_cases :
      (c k : Cell) (w : F) (closed : Closed)
      → is_closed c ((k, w) ∷ closed) ≡ true
      → (c ≡ k) ⊎ (is_closed c closed ≡ true)
  unfolding is_closed
  is_closed-cons_cases c k w closed h = ground (arith, eq_cell→≡ c k)

  is_closed-cons_ne :
      (c k : Cell) (w : F) (closed : Closed)
      → eq_cell k c ≡ false
      → is_closed c closed ≡ false
      → is_closed c ((k, w) ∷ closed) ≡ false
  unfolding is_closed
  is_closed-cons_ne c k w closed other fresh = ground arith

  pub unclosed-cons :
      (c : Cell) (w : F) (closed : Closed)
      → inside g.cells c ≡ true
      → is_closed c closed ≡ false
      → unclosed ((c, w) ∷ closed) < unclosed closed
  unfolding unclosed
  unclosed-cons c w closed i fresh =
      unmarked-lt (λ k. is_closed k closed) (λ k. is_closed k ((c, w) ∷ closed))
        (λ k h. is_closed-cons k c w closed h) c (all_cells g.cells) (mem-all_cells g.cells c i)
        fresh (is_closed-cons_self c w closed)

  -- With the heap empty every reachable cell has been closed.
  pub Reach-closed :
      (h : q.Heap) (closed : Closed)
      → Inv h closed
      → q.entries h ≡ []
      → (c : Cell) → Reach (is_free p g) from c
      → is_closed c closed ≡ true
  Reach-closed h closed i e c here = settled i.begun
    where
      settled : Pending h closed c → is_closed c closed ≡ true
      settled (inl s) = s
      settled (inr (x, m, _)) = absurd (subst (λ l. x ∈ l) e m)
  Reach-closed h closed i e c (step {b} r m) =
      settled (i.frontier b c (Reach-closed h closed i e b r) m)
    where
      settled : Pending h closed c → is_closed c closed ≡ true
      settled (inl s) = s
      settled (inr (x, m, _)) = absurd (subst (λ l. x ∈ l) e m)

  module _ (laws : IsQueue q) where
    open laws use {mem-pop, length-pop, pop_none, length-push, mem-push, entries-empty}

    -- The `continue` on a cell that is closed already.
    pub Inv-skip :
        (h rest : q.Heap) (e : Entry F) (closed : Closed)
        → q.pop h ≡ some (e, rest)
        → is_closed (cell_of e.1) closed ≡ true
        → Inv h closed
        → Inv rest closed
    Inv-skip h rest e closed popped old i = record {
      routed = λ x m. i.routed x ((mem-pop h e rest popped x).1 (inr m));
      begun = stays from i.begun;
      frontier = λ a b c m. stays b (i.frontier a b c m);
      sought = i.sought;
    }
      where
        stays : (c : Cell) → Pending h closed c → Pending rest closed c
        stays c (inl s) = inl s
        stays c (inr (x, m, at)) = elim ((mem-pop h e rest popped x).0 m) [
          | inl same ↦ inl (
              subst (λ z. is_closed z closed ≡ true)
                (sym (ap (λ (y : Entry F). cell_of y.1) same) ∙ at) old)
          | inr kept ↦ inr (x, kept, at)
        ]

    -- A round that closes a cell other than the goal, and expands it.
    pub Inv-close :
        (h rest : q.Heap) (e : Entry F) (closed : Closed)
        → q.pop h ≡ some (e, rest)
        → eq_cell (cell_of e.1) goal ≡ false
        → Inv h closed
        → let closed' : Closed = (cell_of e.1, cost_of e.1) ∷ closed in
          Inv (expand p g q goal e.1 closed' motion rest) closed'
    Inv-close h rest e closed popped other i = record {
      routed =
          expand-IsRouted p g q laws goal e.1 closed' from motion rest (motion-IsStep F)
            (i.routed e ((mem-pop h e rest popped e).1 (inl refl)))
            (λ x m. i.routed x ((mem-pop h e rest popped x).1 (inr m)));
      begun = stays from i.begun;
      frontier = ahead;
      sought = is_closed-cons_ne goal now (cost_of e.1) closed other i.sought;
    }
      where
        now : Cell
        now = cell_of e.1

        closed' : Closed
        closed' = (now, cost_of e.1) ∷ closed

        h' : q.Heap
        h' = expand p g q goal e.1 closed' motion rest

        stays : (c : Cell) → Pending h closed c → Pending h' closed' c
        stays c (inl s) = inl (is_closed-cons c now (cost_of e.1) closed s)
        stays c (inr (x, m, at)) = elim ((mem-pop h e rest popped x).0 m) [
          | inl same ↦ inl (
              subst (λ z. is_closed z closed' ≡ true)
                (sym (ap (λ (y : Entry F). cell_of y.1) same) ∙ at)
                (is_closed-cons_self now (cost_of e.1) closed))
          | inr kept ↦ inr (x, expand-keeps p g q laws goal e.1 closed' motion rest x kept, at)
        ]

        reached : (b : Cell) → Move (is_free p g) now b → Pending h' closed' b
        reached b m =
            let (mo, k, at) = near-motion F now b m.near m.moved in
            subst (Pending h' closed') (sym at) (
              expand-IsPending p g q laws goal e.1 closed' motion mo rest k
                (subst (Move (is_free p g) now) at m))

        ahead :
            (a b : Cell)
            → is_closed a closed' ≡ true
            → Move (is_free p g) a b
            → Pending h' closed' b
        ahead a b c m = elim (is_closed-cons_cases a now (cost_of e.1) closed c) [
          | inr old ↦ stays b (i.frontier a b old m)
          | inl same ↦ reached b (subst (λ z. Move (is_free p g) z b) same m)
        ]
