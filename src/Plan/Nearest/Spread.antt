-- ===== src/Plan/Nearest/Spread.antt =====
-- What the motion loop of `_nearest_free` does to the visited cells and to the queue.
use navigation.Prelude.{
  ℕ, ◌+◌, ◌≤◌, ◌≡◌, ◌⊎◌, inl, inr, Bool, true, not, ◌&&◌, List, [], ◌∷◌, ◌++◌, length, ◌∈◌, arith,
  Bool-cases, ℤ, if◌then◌else◌, length-append, mem-append_left, mem-append_right, mem-append_cases,
}
use mathlib.Core.Path.{subst}
use native.Mathlib.Nat.{le_trans}
use navigation.Grid.{Cell, inside}
use navigation.Grid.Cells.{all_cells, unmarked, unmarked-lt, mem-all_cells}
use navigation.AStar.{is_visited}
use navigation.AStar.Moves.{shift, eq_cell_refl, eq_cell→≡}
use navigation.Plan.{spread}

pub is_visited-cons_self : (c : Cell) (v : List Cell) → is_visited c (c ∷ v) ≡ true
unfolding is_visited
is_visited-cons_self c v = rw (eq_cell_refl c)

pub is_visited-cons :
    (c k : Cell) (v : List Cell) → is_visited c v ≡ true → is_visited c (k ∷ v) ≡ true
unfolding is_visited
is_visited-cons c k v h = ground arith

pub is_visited-cons_cases :
    (c k : Cell) (v : List Cell) → is_visited c (k ∷ v) ≡ true → (c ≡ k) ⊎ (is_visited c v ≡ true)
unfolding is_visited
is_visited-cons_cases c k v h = ground (arith, eq_cell→≡ c k)

unfoldable pub unvisited : ℕ → List Cell → ℕ
unvisited cells v = unmarked (λ c. is_visited c v) (all_cells cells)

module _ (cells : ℕ) (n : Cell) (v q : List Cell) where
  abbrev new : Bool
  new = not (is_visited n v) && inside cells n

  abbrev v' : List Cell
  v' = if new then n ∷ v else v

  abbrev q' : List Cell
  q' = if new then q ++ (n ∷ []) else q

  put_grows : (x : Cell) → is_visited x v ≡ true → is_visited x v' ≡ true
  put_grows x h = elim (Bool-cases new) [ inl e ↦ rw e (is_visited-cons x n v h) | inr e ↦ rw e h ]

  put_keeps : (x : Cell) → x ∈ q → x ∈ q'
  put_keeps x h = elim (Bool-cases new) [
    | inl e ↦ rw e (mem-append_left x q (n ∷ []) h)
    | inr e ↦ rw e h
  ]

  put_queued :
      ((x : Cell) → x ∈ q → is_visited x v ≡ true) → (x : Cell) → x ∈ q' → is_visited x v' ≡ true
  put_queued h x = elim (Bool-cases new) [
    | inr e ↦ rw e (h x)
    | inl e ↦ rw e λ m. elim (mem-append_cases x q (n ∷ []) m) [
      | inl old ↦ is_visited-cons x n v (h x old)
      | inr (inl same) ↦ rw same (is_visited-cons_self n v)
      | inr (inr none_left) ↦ absurd none_left
    ]
  ]

  put_fresh : (x : Cell) → is_visited x v' ≡ true → (is_visited x v ≡ true) ⊎ (x ∈ q')
  put_fresh x = elim (Bool-cases new) [
    | inr e ↦ rw e λ h. inl h
    | inl e ↦ rw e λ h. elim (is_visited-cons_cases x n v h) [
      | inl same ↦ inr (mem-append_right x q (n ∷ []) (inl same))
      | inr old ↦ inl old
    ]
  ]

  put_within :
      ((x : Cell) → is_visited x v ≡ true → inside cells x ≡ true)
      → (x : Cell) → is_visited x v' ≡ true
      → inside cells x ≡ true
  put_within h x = elim (Bool-cases new) [
    | inr e ↦ rw e (h x)
    | inl e ↦ rw e λ i. elim (is_visited-cons_cases x n v i) [
      | inl same ↦ rw same (ground arith)
      | inr old ↦ h x old
    ]
  ]

  put_reaches : inside cells n ≡ true → is_visited n v' ≡ true
  put_reaches i = elim (Bool-cases (is_visited n v)) [
    | inl old ↦ put_grows n old
    | inr fresh ↦ rw (fresh, i) (is_visited-cons_self n v)
  ]

  put_measure : unvisited cells v' + length q' ≤ unvisited cells v + length q
  unfolding unvisited
  put_measure = elim (Bool-cases new) [
    | inr e ↦ rw e (omega arith)
    | inl e ↦ rw e (
        omega (
          arith,
          length-append q (n ∷ []),
          unmarked-lt (λ c. is_visited c v) (λ c. is_visited c (n ∷ v)) (λ c. is_visited-cons c n v)
              n (all_cells cells) (mem-all_cells cells n (ground arith)) (ground arith)
              (is_visited-cons_self n v),
        ))
  ]

module _ {F : Type 0} (free : Cell → Bool) (cells : ℕ) (motions : List (ℤ × ℤ × F)) (c : Cell) where
  abbrev run : List (ℤ × ℤ × F) → List Cell → List Cell → List Cell × List Cell
  run = spread free cells motions c

  abbrev target : ℤ × ℤ × F → Cell
  target m = shift c m.0 m.1

  pub spread_grows :
      (ms : List (ℤ × ℤ × F)) (v q : List Cell) (x : Cell)
      → is_visited x v ≡ true
      → is_visited x (run ms v q).0 ≡ true
  unfolding spread
  spread_grows [] v q x h = h
  spread_grows (m ∷ ms) v q x h = spread_grows ms _ _ x (put_grows cells (target m) v q x h)

  pub spread_keeps :
      (ms : List (ℤ × ℤ × F)) (v q : List Cell) (x : Cell) → x ∈ q → x ∈ (run ms v q).1
  unfolding spread
  spread_keeps [] v q x h = h
  spread_keeps (m ∷ ms) v q x h = spread_keeps ms _ _ x (put_keeps cells (target m) v q x h)

  pub spread_queued :
      (ms : List (ℤ × ℤ × F)) (v q : List Cell)
      → ((x : Cell) → x ∈ q → is_visited x v ≡ true)
      → (x : Cell) → x ∈ (run ms v q).1
      → is_visited x (run ms v q).0 ≡ true
  unfolding spread
  spread_queued [] v q h = h
  spread_queued (m ∷ ms) v q h = spread_queued ms _ _ (put_queued cells (target m) v q h)

  pub spread_fresh :
      (ms : List (ℤ × ℤ × F)) (v q : List Cell) (x : Cell)
      → is_visited x (run ms v q).0 ≡ true
      → (is_visited x v ≡ true) ⊎ (x ∈ (run ms v q).1)
  unfolding spread
  spread_fresh [] v q x h = inl h
  spread_fresh (m ∷ ms) v q x h = elim (spread_fresh ms _ _ x h) [
    | inr later ↦ inr later
    | inl now ↦ elim (put_fresh cells (target m) v q x now) [
      | inl old ↦ inl old
      | inr put ↦ inr (spread_keeps ms _ _ x put)
    ]
  ]

  pub spread_within :
      (ms : List (ℤ × ℤ × F)) (v q : List Cell)
      → ((x : Cell) → is_visited x v ≡ true → inside cells x ≡ true)
      → (x : Cell) → is_visited x (run ms v q).0 ≡ true
      → inside cells x ≡ true
  unfolding spread
  spread_within [] v q h = h
  spread_within (m ∷ ms) v q h = spread_within ms _ _ (put_within cells (target m) v q h)

  pub spread_reaches :
      (ms : List (ℤ × ℤ × F)) (v q : List Cell) (m : ℤ × ℤ × F)
      → m ∈ ms
      → inside cells (target m) ≡ true
      → is_visited (target m) (run ms v q).0 ≡ true
  unfolding spread
  spread_reaches [] v q m i h = absurd i
  spread_reaches (k ∷ ms) v q m (inr i) h = spread_reaches ms _ _ m i h
  spread_reaches (k ∷ ms) v q m (inl e) h = spread_grows ms _ _ (target m) (
      subst (λ z. is_visited (target m) (v' cells (target z) v q) ≡ true) e
        (put_reaches cells (target m) v q h))

  pub spread_measure :
      (ms : List (ℤ × ℤ × F)) (v q : List Cell)
      → unvisited cells (run ms v q).0 + length (run ms v q).1 ≤ unvisited cells v + length q
  unfolding spread
  spread_measure [] v q = omega arith
  spread_measure (m ∷ ms) v q = le_trans (spread_measure ms _ _) (put_measure cells (target m) v q)
