-- ===== src/MpcNode/Clusters.antt =====
-- `_cluster_points` of mpc_node.py: a union-find with path halving over the occupied cells of a grid. A
-- dictionary of parents is a function, which gives a cell that is not a key itself. A loop of `find` is
-- given the number of steps that it may make; `none` says that they were not enough.
pub mod Chains
pub mod Forest
use navigation.Prelude.{
  ℕ, zero, suc, ◌+◌, ◌*◌, Bool, true, false, ◌&&◌, ◌||◌, Option, none, some, List, [], ◌∷◌, ◌++◌,
  length, map, ℤ, pos, negsuc, ◌+ℤ◌, eqb_ℤ, if◌then◌else◌,
}
use navigation.Float.{Float, ◌⊘◌}
use navigation.Float.Trig.{Trig}
use navigation.MpcNode.Plane.{Point}

abbrev pub Cell : Type 0
Cell = ℤ × ℤ

abbrev pub Parents : Type 0
Parents = Cell → Cell

abbrev pub same_cell : Cell → Cell → Bool
same_cell a b = eqb_ℤ a.0 b.0 && eqb_ℤ a.1 b.1

unfoldable pub set_parent : Cell → Cell → Parents → Parents
set_parent a b parent x = if same_cell x a then b else parent x

-- `find`, with the root and the parents after its writes.
unfoldable pub find : ℕ → Parents → Cell → Option (Cell × Parents)
find zero parent a = if same_cell (parent a) a then some (a, parent) else none
find (suc n) parent a =
    let rest = find n (set_parent a (parent (parent a)) parent) (parent (parent a)) in
    if same_cell (parent a) a then some (a, parent) else rest

unfoldable pub linked : Cell → Cell → Parents → Parents
linked ra rb parent = if same_cell ra rb then parent else set_parent ra rb parent

-- A result for what follows.
unfoldable pub after : {A B : Type 0} → Option A → (A → Option B) → Option B
after none g = none
after (some a) g = g a

unfoldable pub union : ℕ → Cell → Cell → Parents → Option Parents
union n a b parent =
    after (find n parent a) (λ o. after (find n o.1 b) (λ o'. some (linked o.0 o'.0 o'.1)))

abbrev pub is_occupied : Cell → List Cell → Bool
is_occupied c [] = false
is_occupied c (d ∷ ds) = same_cell c d || is_occupied c ds

-- The keys of `occupied`, in the order of their first points.
unfoldable pub occupied_from : List Cell → List Cell → List Cell
occupied_from seen [] = []
occupied_from seen (c ∷ cs) =
    if is_occupied c seen then occupied_from seen cs else c ∷ occupied_from (c ∷ seen) cs

abbrev pub shifted : Cell → ℤ → ℤ → Cell
shifted c dx dy = (c.0 +ℤ dx, c.1 +ℤ dy)

-- The neighbours of a cell, in the order of the loops over dx and dy.
abbrev pub neighbours : Cell → List Cell
neighbours c =
    shifted c (negsuc 0) (negsuc 0)
    ∷ shifted c (negsuc 0) (pos 0)
    ∷ shifted c (negsuc 0) (pos 1)
    ∷ shifted c (pos 0) (negsuc 0)
    ∷ shifted c (pos 0) (pos 1)
    ∷ shifted c (pos 1) (negsuc 0)
    ∷ shifted c (pos 1) (pos 0)
    ∷ shifted c (pos 1) (pos 1)
    ∷ []

-- The unions of a cell with its occupied neighbours.
abbrev pub unions_of : Cell → List Cell → List Cell → List (Cell × Cell)
unions_of c cells [] = []
unions_of c cells (b ∷ bs) =
    let others = unions_of c cells bs in if is_occupied b cells then (c, b) ∷ others else others

abbrev pub unions : List Cell → List Cell → List (Cell × Cell)
unions cells [] = []
unions cells (c ∷ cs) = unions_of c cells (neighbours c) ++ unions cells cs

unfoldable pub union_all : ℕ → List (Cell × Cell) → Parents → Option Parents
union_all n [] parent = some parent
union_all n ((a, b) ∷ pairs) parent = after (union n a b parent) (union_all n pairs)

-- `root_to_label`, with the latest root at the head: the labels count up from 0.
unfoldable pub label_of : Cell → List Cell → Option ℕ
label_of root [] = none
label_of root (r ∷ rs) = if same_cell root r then some (length rs) else label_of root rs

abbrev pub with_label : ℕ → Option (List ℕ × ℕ) → Option (List ℕ × ℕ)
with_label l none = none
with_label l (some (ls, count)) = some (l ∷ ls, count)

-- The labels of the points, from their cells, and their number.
unfoldable pub label_all : ℕ → Parents → List Cell → List Cell → Option (List ℕ × ℕ)
label_all n parent roots [] = some ([], length roots)
label_all n parent roots (c ∷ cs) = after (find n parent c) (λ o. elim (label_of o.0 roots) [
  | some l ↦ with_label l (label_all n o.1 roots cs)
  | none ↦ with_label (length roots) (label_all n o.1 (o.0 ∷ roots) cs)
])

unfoldable pub cluster_cells : List Cell → Option (List ℕ × ℕ)
cluster_cells cells =
    let occupied = occupied_from [] cells in
    let pairs = unions occupied occupied in
    let fuel = length pairs in
    after (union_all fuel pairs (λ c. c)) (λ parent. label_all fuel parent [] cells)

module _ {F : Type 0} ⦃f : Float F⦄ ⦃t : Trig F⦄ where
  unfoldable pub cluster_points : F → List (Point F) → Option (List ℕ × ℕ)
  cluster_points cell obs =
      cluster_cells (map (λ o. (t.floor (o.0 ⊘ cell), t.floor (o.1 ⊘ cell))) obs)
