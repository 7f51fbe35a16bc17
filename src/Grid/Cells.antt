-- ===== src/Grid/Cells.antt =====
-- All cells of a square grid as a list, and how many of them are not marked.
use navigation.Prelude.{
  ℕ, zero, suc, ◌+◌, ◌*◌, ◌≤◌, ◌<◌, ◌≡◌, refl, inl, inr, Bool, true, false, List, [], ◌∷◌, ◌++◌,
  pos, negsuc, if◌then◌else◌, length, length-append, ◌∈◌, mem-append_left, mem-append_right, arith,
}
use navigation.Grid.{Cell, inside}

abbrev row : ℕ → ℕ → List Cell
row i zero = []
row i (suc j) = (pos i, pos j) ∷ row i j

abbrev rows : ℕ → ℕ → List Cell
rows n zero = []
rows n (suc i) = row i n ++ rows n i

pub all_cells : ℕ → List Cell
all_cells n = rows n n

mem-row : (i j n : ℕ) → j < n → (pos i, pos j) ∈ row i n
mem-row i j zero h = absurd (omega arith)
mem-row i j (suc n) h = ground (arith, mem-row i j n)

mem-rows : (i j n k : ℕ) → i < k → j < n → (pos i, pos j) ∈ rows n k
mem-rows i j n zero h l = absurd (omega arith)
mem-rows i j n (suc k) h l = ground (
  arith,
  mem-rows i j n k,
  mem-row i j n,
  mem-append_left (pos i, pos j) (row k n) (rows n k),
  mem-append_right (pos i, pos j) (row k n) (rows n k),
)

length-row : (i n : ℕ) → length (row i n) ≡ n
length-row i zero = refl
length-row i (suc n) = omega (arith, length-row i n)

length-rows : (n k : ℕ) → length (rows n k) ≡ k * n
length-rows n zero = omega arith
length-rows n (suc k) =
    omega (arith, length-append (row k n) (rows n k), length-row k n, length-rows n k)

pub length-all_cells : (n : ℕ) → length (all_cells n) ≡ n * n
unfolding all_cells
length-all_cells n = length-rows n n

pub mem-all_cells : (n : ℕ) (c : Cell) → inside n c ≡ true → c ∈ all_cells n
unfolding all_cells inside
mem-all_cells n (pos i, pos j) h = mem-rows i j n n (ground arith) (ground arith)
mem-all_cells n (pos i, negsuc j) h = ground arith
mem-all_cells n (negsuc i, y) h = ground arith

-- The number of cells of a list that a test does not mark.
pub unmarked : (Cell → Bool) → List Cell → ℕ
unmarked marked [] = 0
unmarked marked (c ∷ cs) = (if marked c then 0 else 1) + unmarked marked cs

pub unmarked-le-length : (marked : Cell → Bool) (cs : List Cell) → unmarked marked cs ≤ length cs
unfolding unmarked
unmarked-le-length marked [] = omega arith
unmarked-le-length marked (c ∷ cs) = ground (arith, unmarked-le-length marked cs)

module _ (old new : Cell → Bool) (grows : (c : Cell) → old c ≡ true → new c ≡ true) where
  unmarked-le : (cs : List Cell) → unmarked new cs ≤ unmarked old cs
  unfolding unmarked
  unmarked-le [] = omega arith
  unmarked-le (c ∷ cs) = ground (arith, grows c, unmarked-le cs)

  -- A cell that is newly marked lowers the count.
  pub unmarked-lt :
      (c : Cell) (cs : List Cell)
      → c ∈ cs
      → old c ≡ false
      → new c ≡ true
      → unmarked new cs < unmarked old cs
  unfolding unmarked
  unmarked-lt c [] m o n = absurd m
  unmarked-lt c (d ∷ ds) (inl e) o n = ground (arith, e, unmarked-le ds)
  unmarked-lt c (d ∷ ds) (inr m) o n = ground (arith, grows d, unmarked-lt c ds m o n)
