-- ===== src/AStar/Expand.antt =====
-- What one expansion does to the heap: it keeps the entries, adds routed nodes only, adds every
-- neighbour that a move leads to and that is not closed, and at most one entry for each motion.
use mathlib.Core.List.{reverse, reverse-cons}
use navigation.Prelude.{
  suc, ◌+◌, ◌≤◌, ◌≡◌, refl, ◌⊎◌, inl, inr, Bool, true, false, List, [], ◌∷◌, ℤ, length, ◌∈◌, All,
  arith, Bool-cases,
}
use mathlib.Core.Path.{subst}
use navigation.Float.{Float, ◌⊕◌, ◌⊗◌}
use navigation.Grid.{Cell, GridMap, inside}
use navigation.AStar.{
  Node, root, child, Entry, cell_of, Planner, PriorityQueue, IsQueue, is_free, is_closed, may_move,
  try_motion, expand, extract_path, ancestors, cost_of, cell_cost, heuristic,
}
use navigation.AStar.Moves.{
  Move, Route, Route-snoc, IsStep, shift, may_move_sound, may_move_complete, inside_of_free,
}

module _ {F : Type 0} ⦃f : Float F⦄ (p : Planner F) (g : GridMap F) (from : Cell) where
  -- The parents of a node lead back to the start by moves.
  abbrev pub IsRouted : Node F → Type 0
  IsRouted (root c cost) = from ≡ c
  IsRouted (child c cost parent) = Move (is_free p g) (cell_of parent) c × IsRouted parent

  pub extract_path-Route :
      (n : Node F) → IsRouted n → Route (is_free p g) from (cell_of n) (extract_path n)
  unfolding extract_path
  extract_path-Route (root c cost) r = (r, refl)
  extract_path-Route (child c cost parent) r = rw (reverse-cons c (ancestors parent)) (
      Route-snoc (is_free p g) from (cell_of parent) c (reverse (ancestors parent))
        (extract_path-Route parent r.1) r.0)

  pub IsRouted-inside :
      (n : Node F) → inside g.cells from ≡ true → IsRouted n → inside g.cells (cell_of n) ≡ true
  IsRouted-inside (root c cost) h r = ground arith
  IsRouted-inside (child c cost parent) h r = inside_of_free p g c r.0.free_target

module _ {F : Type 0} ⦃f : Float F⦄ (p : Planner F) (g : GridMap F) (q : PriorityQueue (Entry F))
    (laws : IsQueue q) (goal : Cell) (current : Node F) (closed : List (Cell × F)) where
  open laws use {mem-push, length-push}

  abbrev one : ℤ × ℤ × F → q.Heap → q.Heap
  one = try_motion p g q goal current closed

  abbrev many : List (ℤ × ℤ × F) → q.Heap → q.Heap
  many = expand p g q goal current closed

  abbrev beside : ℤ × ℤ × F → Cell
  beside m = shift (cell_of current) m.0 m.1

  -- The entry that a motion adds.
  abbrev neighbour : ℤ × ℤ × F → Entry F
  neighbour m =
      let ng = cost_of current ⊕ m.2 ⊗ g.reso ⊗ cell_cost p g (beside m) in
      (ng ⊕ heuristic (beside m) goal g.reso, child (beside m) ng current)

  may : ℤ × ℤ × F → Bool
  may m = may_move p g (cell_of current) m.0 m.1

  try_motion_cases :
      (m : ℤ × ℤ × F) (h : q.Heap)
      → (may m ≡ false) × (one m h ≡ h)
        ⊎ (is_closed (beside m) closed ≡ true) × (one m h ≡ h)
        ⊎ (may m ≡ true) × (one m h ≡ q.push (neighbour m) h)
  unfolding try_motion may
  try_motion_cases m h = elim (Bool-cases (may m)) [
    | inr n ↦ inl (n, rw n)
    | inl y ↦ elim (Bool-cases (is_closed (beside m) closed)) [
      | inl c ↦ inr (inl (c, rw (y, c)))
      | inr c ↦ inr (inr (y, rw (y, c)))
    ]
  ]

  -- What a motion does to the entries.
  mem-try_motion :
      (m : ℤ × ℤ × F) (h : q.Heap) (e : Entry F)
      → (e ∈ q.entries h → e ∈ q.entries (one m h))
        × (e ∈ q.entries (one m h) → (e ∈ q.entries h) ⊎ (may m ≡ true) × (e ≡ neighbour m))
  mem-try_motion m h e = elim (try_motion_cases m h) [
    | inl (n, same) ↦ rw same (λ i. i, λ i. inl i)
    | inr (inl (c, same)) ↦ rw same (λ i. i, λ i. inl i)
    | inr (inr (y, new)) ↦
        rw new (
          ground (arith, mem-push (neighbour m) e h),
          ground (arith, mem-push (neighbour m) e h, y),
        )
  ]

  length-try_motion :
      (m : ℤ × ℤ × F) (h : q.Heap) → length (q.entries (one m h)) ≤ suc (length (q.entries h))
  length-try_motion m h = elim (try_motion_cases m h) [
    | inl (n, same) ↦ rw same (omega arith)
    | inr (inl (c, same)) ↦ rw same (omega arith)
    | inr (inr (y, new)) ↦ rw (new, length-push) (omega arith)
  ]

  -- A cell is pending if it is closed or waits in the heap.
  abbrev pub IsPending : q.Heap → Cell → Type 0
  IsPending h c =
      (is_closed c closed ≡ true) ⊎ ((e : Entry F) × (e ∈ q.entries h) × (cell_of e.1 ≡ c))

  try_motion-IsPending :
      (m : ℤ × ℤ × F) (h : q.Heap) → may m ≡ true → IsPending (one m h) (beside m)
  try_motion-IsPending m h y = elim (try_motion_cases m h) [
    | inl (n, same) ↦ ground arith
    | inr (inl (c, same)) ↦ inl c
    | inr (inr (_, new)) ↦
        inr (neighbour m, rw new ((mem-push (neighbour m) (neighbour m) h).1 (inl refl)), refl)
  ]

  pub expand-keeps :
      (ms : List (ℤ × ℤ × F)) (h : q.Heap) (e : Entry F)
      → e ∈ q.entries h
      → e ∈ q.entries (many ms h)
  unfolding expand
  expand-keeps [] h e i = i
  expand-keeps (m ∷ ms) h e i = expand-keeps ms (one m h) e ((mem-try_motion m h e).0 i)

  pub length-expand :
      (ms : List (ℤ × ℤ × F)) (h : q.Heap)
      → length (q.entries (many ms h)) ≤ length ms + length (q.entries h)
  unfolding expand
  length-expand [] h = omega arith
  length-expand (m ∷ ms) h = omega (arith, length-expand ms (one m h), length-try_motion m h)

  -- Every neighbour that a move leads to is pending after the expansion.
  pub expand-IsPending :
      (ms : List (ℤ × ℤ × F)) (m : ℤ × ℤ × F) (h : q.Heap)
      → m ∈ ms
      → Move (is_free p g) (cell_of current) (beside m)
      → IsPending (many ms h) (beside m)
  unfolding expand may
  expand-IsPending [] m h i move = absurd i
  expand-IsPending (k ∷ ms) m h (inr i) move = expand-IsPending ms m (one k h) i move
  expand-IsPending (k ∷ ms) m h (inl same) move =
      elim (try_motion-IsPending m h (may_move_complete p g (cell_of current) m.0 m.1 move)) [
        | inl c ↦ inl c
        | inr (e, i, at) ↦
            inr (e, expand-keeps ms (one k h) e (subst (λ z. e ∈ q.entries (one z h)) same i), at)
      ]

  module _ (from : Cell) where
    -- The expansion of a routed node adds routed nodes only.
    pub expand-IsRouted :
        (ms : List (ℤ × ℤ × F)) (h : q.Heap)
        → All IsStep ms
        → IsRouted p g from current
        → ((e : Entry F) → e ∈ q.entries h → IsRouted p g from e.1)
        → (e : Entry F) → e ∈ q.entries (many ms h)
        → IsRouted p g from e.1
    unfolding expand may
    expand-IsRouted [] h steps r all e i = all e i
    expand-IsRouted (m ∷ ms) h steps r all e i =
        expand-IsRouted ms (one m h) steps.1 r
          (λ x j. elim ((mem-try_motion m h x).1 j) [
            | inl old ↦ all x old
            | inr (y, new) ↦ rw new (may_move_sound p g (cell_of current) m.0 m.1 steps.0 y, r)
          ])
          e i
