-- ===== src/Plan/Nearest/Connected.antt =====
-- A set of cells that holds one cell of the grid, and with a cell its neighbours on the grid, holds
-- the whole grid.
use navigation.Prelude.{
  ℕ, zero, suc, ◌<◌, ◌≡◌, ◌≢◌, Bool, true, pos, negsuc, arith, int_laws, pos_part, ap,
}
use navigation.Grid.{Cell, inside}
use navigation.AStar.Moves.{IsNear}

module _ (cells : ℕ) (held : Cell → Bool)
    (spreads : (a b : Cell)
      → held a ≡ true
      → IsNear a b
      → a ≢ b
      → inside cells b ≡ true
      → held b ≡ true) where
  abbrev at : ℕ → ℕ → Cell
  at i j = (pos i, pos j)

  at-inside : (i j : ℕ) → i < cells → j < cells → inside cells (at i j) ≡ true
  unfolding inside
  at-inside i j h k = ground arith

  west : (i j : ℕ) → i < cells → j < cells → held (at i j) ≡ true → held (at 0 j) ≡ true
  west zero j h k s = s
  west (suc i) j h k s = west i j (omega arith) k (
      spreads (at (suc i) j) (at i j) s (omega int_laws)
        (λ e. apart (ap (λ (c : Cell). pos_part c.0) e)) (at-inside i j (omega arith) k))
    where
      apart : suc i ≡ i → ⊥
      apart e = omega arith

  south : (j : ℕ) → 0 < cells → j < cells → held (at 0 j) ≡ true → held (at 0 0) ≡ true
  south zero h k s = s
  south (suc j) h k s = south j h (omega arith) (
      spreads (at 0 (suc j)) (at 0 j) s (omega int_laws)
        (λ e. apart (ap (λ (c : Cell). pos_part c.1) e)) (at-inside 0 j h (omega arith)))
    where
      apart : suc j ≡ j → ⊥
      apart e = omega arith

  north : (j : ℕ) → 0 < cells → j < cells → held (at 0 0) ≡ true → held (at 0 j) ≡ true
  north zero h k s = s
  north (suc j) h k s =
      spreads (at 0 j) (at 0 (suc j)) (north j h (omega arith) s) (omega int_laws)
        (λ e. apart (ap (λ (c : Cell). pos_part c.1) e)) (at-inside 0 (suc j) h k)
    where
      apart : j ≡ suc j → ⊥
      apart e = omega arith

  east : (i j : ℕ) → i < cells → j < cells → held (at 0 j) ≡ true → held (at i j) ≡ true
  east zero j h k s = s
  east (suc i) j h k s =
      spreads (at i j) (at (suc i) j) (east i j (omega arith) k s) (omega int_laws)
        (λ e. apart (ap (λ (c : Cell). pos_part c.0) e)) (at-inside (suc i) j h k)
    where
      apart : i ≡ suc i → ⊥
      apart e = omega arith

  pub all_of_start :
      (a : Cell)
      → inside cells a ≡ true
      → held a ≡ true
      → (c : Cell) → inside cells c ≡ true
      → held c ≡ true
  unfolding inside
  all_of_start (pos i, pos j) ia s (pos k, pos l) ic =
      let corner =
        south j (ground arith) (ground arith) (west i j (ground arith) (ground arith) s) in
      east k l (ground arith) (ground arith) (north l (ground arith) (ground arith) corner)
  all_of_start (pos i, pos j) ia s (pos k, negsuc l) ic = ground arith
  all_of_start (pos i, pos j) ia s (negsuc k, y) ic = ground arith
  all_of_start (pos i, negsuc j) ia s c ic = ground arith
  all_of_start (negsuc i, y) ia s c ic = ground arith
