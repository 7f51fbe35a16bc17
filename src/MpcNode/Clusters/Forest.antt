-- ===== src/MpcNode/Clusters/Forest.antt =====
-- The parents stay a forest whose depth is at most the number of unions, so that `find` ends.
use navigation.Prelude.{
  ℕ, zero, suc, ◌+◌, ◌≤◌, ◌≡◌, refl, sym, ap, ◌∙◌, inl, inr, Option, some, option-split, List, [],
  ◌∷◌, length, Bool-cases, arith,
}
use mathlib.Core.Path.{subst}
use navigation.MpcNode.Clusters.{
  Cell, Parents, same_cell, find, linked, union, union_all, after, label_of, label_all, with_label,
  cluster_cells, unions, occupied_from,
}
use navigation.MpcNode.Clusters.Chains.{
  Chain, Chain.top, weaken, weaken_to, halved, halve-Chain, above, same_cell→≡, same_cell_refl,
  link-Chain,
}

-- Every cell has a root that is at most `n` parents above it.
abbrev IsForest : ℕ → Parents → Type 0
IsForest n parent = (x : Cell) → (r : Cell) × Chain parent r n x

-- What `find` gives: a root of the cell, and parents whose chains are those before, or shorter.
abbrev IsFound : ℕ → Parents → Cell → Cell × Parents → Type 0
IsFound n parent a (r, parent') =
    (parent' r ≡ r) × ((s x : Cell) (m : ℕ) → Chain parent s m x → Chain parent' s m x)

find-IsFound :
    (n : ℕ) (parent : Parents) (a r : Cell)
    → Chain parent r n a
    → (o : Cell × Parents) × (find n parent a ≡ some o) × IsFound n parent a o
unfolding find
find-IsFound zero parent a r (top q e) =
    ((a, parent), rw (e, same_cell_refl a) refl, (e, λ s x m c. c))
find-IsFound (suc n) parent a r c = elim (Bool-cases (same_cell (parent a) a)) [
  | inl h ↦ ((a, parent), rw h refl, (same_cell→≡ (parent a) a h, λ s x m c. c))
  | inr h ↦
      let up2 = parent (parent a) in
      let (o, found, (is_root, keeps)) =
        find-IsFound n (halved parent a) up2 r
          (halve-Chain parent a r n up2 (above parent r n a c h)) in
      (o, rw h found, (is_root, λ s x m d. keeps s x m (halve-Chain parent a s m x d)))
]

linked-IsForest :
    (n : ℕ) (a b : Cell) (parent : Parents)
    → parent b ≡ b
    → IsForest n parent
    → IsForest (suc n) (linked a b parent)
unfolding linked
linked-IsForest n a b parent root forest x = elim (Bool-cases (same_cell a b)) [
  | inl h ↦ let (r, c) = forest x in rw h (r, weaken parent c)
  | inr h ↦ let (r, c) = forest x in rw h (link-Chain a b parent r n x root c)
]

-- A search keeps a forest.
find-IsForest :
    (n m : ℕ) (parent : Parents) (a : Cell) (o : Cell × Parents)
    → IsFound n parent a o
    → IsForest m parent
    → IsForest m o.1
find-IsForest n m parent a o (root, keeps) forest x = let (r, c) = forest x in (r, keeps r x m c)

deeper :
    (n m : ℕ) (x : Cell) (parent : Parents)
    → m ≤ n
    → IsForest m parent
    → (r : Cell) × Chain parent r n x
deeper n m x parent le forest = let (r, c) = forest x in (r, weaken_to parent r n m x le c)

after-some : {A B : Type 0} (o : Option A) (a : A) (g : A → Option B) → o ≡ some a → after o g ≡ g a
unfolding after
after-some o a g e = ap (λ x. after x g) e

union_found :
    (n : ℕ) (a b : Cell) (parent : Parents) (o o' : Cell × Parents)
    → find n parent a ≡ some o
    → find n o.1 b ≡ some o'
    → union n a b parent ≡ some (linked o.0 o'.0 o'.1)
unfolding union
union_found n a b parent o o' e e' = after-some _ o _ e ∙ after-some _ o' _ e'

union_all_found :
    (n : ℕ) (a b : Cell) (pairs : List (Cell × Cell)) (parent parent' : Parents)
    → union n a b parent ≡ some parent'
    → union_all n ((a, b) ∷ pairs) parent ≡ union_all n pairs parent'
unfolding union_all
union_all_found n a b pairs parent parent' e = after-some _ parent' _ e

-- With as many steps as the forest is deep, a union ends, and deepens it by one at most.
union-IsForest :
    (n m : ℕ) (a b : Cell) (parent : Parents)
    → m ≤ n
    → IsForest m parent
    → (parent' : Parents) × (union n a b parent ≡ some parent') × IsForest (suc m) parent'
unfolding union
union-IsForest n m a b parent le forest =
    let (ra, ca) = deeper n m a parent le forest in
    let (o, ea, fa) = find-IsFound n parent a ra ca in
    let forest' = find-IsForest n m parent a o fa forest in
    let (rb, cb) = deeper n m b o.1 le forest' in
    let (o', eb, fb) = find-IsFound n o.1 b rb cb in
    (
      linked o.0 o'.0 o'.1,
      union_found n a b parent o o' ea eb,
      linked-IsForest m o.0 o'.0 o'.1 fb.0 (find-IsForest n m o.1 b o' fb forest'),
    )

-- As many steps as there are unions, with those of the depth so far, are enough.
union_all-ends :
    (n m : ℕ) (pairs : List (Cell × Cell)) (parent : Parents)
    → m + length pairs ≤ n
    → IsForest m parent
    → (parent' : Parents) × (union_all n pairs parent ≡ some parent') × IsForest n parent'
unfolding union_all
union_all-ends n m [] parent le forest =
    (parent, refl, λ x. deeper n m x parent (omega (arith, le)) forest)
union_all-ends n m ((a, b) ∷ pairs) parent le forest =
    let (parent', e, forest') = union-IsForest n m a b parent (omega (arith, le)) forest in
    let (parent'', e', forest'') =
      union_all-ends n (suc m) pairs parent' (omega (arith, le)) forest' in
    (parent'', union_all_found n a b pairs parent parent' e ∙ e', forest'')

-- A result with a label for each point.
abbrev IsLabelling : ℕ → Option (List ℕ × ℕ) → Type 0
IsLabelling n r = (o : List ℕ × ℕ) × (r ≡ some o) × (length o.0 ≡ n)

with_label-IsLabelling :
    (n l : ℕ) (r : Option (List ℕ × ℕ)) → IsLabelling n r → IsLabelling (suc n) (with_label l r)
with_label-IsLabelling n l r (o, e, q) = ((l ∷ o.0, o.1), ap (with_label l) e, omega (arith, q))

label_all-ends :
    (n : ℕ) (parent : Parents) (roots cells : List Cell)
    → IsForest n parent
    → IsLabelling (length cells) (label_all n parent roots cells)
unfolding label_all
label_all-ends n parent roots [] forest = (([], length roots), refl, refl)
label_all-ends n parent roots (c ∷ cells) forest =
    let (r, chain) = forest c in
    let (o, e, found) = find-IsFound n parent c r chain in
    let forest' = find-IsForest n n parent c o found forest in
    subst (IsLabelling _) (sym (after-some _ o _ e)) (
      option-split (IsLabelling _) (label_of o.0 roots)
        (λ new.
          with_label-IsLabelling _ (length roots) _
            (label_all-ends n o.1 (o.0 ∷ roots) cells forest'))
        (λ l known. with_label-IsLabelling _ l _ (label_all-ends n o.1 roots cells forest')))

-- The clustering ends: as many steps for a search as there are unions are enough, and every point gets a
-- label.
pub cluster_cells-ends :
    (cells : List Cell)
    → (o : List ℕ × ℕ) × (cluster_cells cells ≡ some o) × (length o.0 ≡ length cells)
unfolding cluster_cells
cluster_cells-ends cells =
    let occupied = occupied_from [] cells in
    let pairs = unions occupied occupied in
    let (parent, e, forest) =
      union_all-ends (length pairs) 0 pairs (λ c. c) (omega arith) (λ x. (x, top refl refl)) in
    subst (IsLabelling _) (sym (after-some _ parent _ e))
      (label_all-ends (length pairs) parent [] cells forest)
