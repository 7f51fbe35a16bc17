-- ===== src/PersistentMap/Sorting.antt =====
-- The keys of the persistent map's dictionary under storing, sorting by time and taking the first ones.
use navigation.Prelude.{
  ℕ, suc, ◌-◌, ◌≤◌, ◌≡◌, refl, ap, ◌∙◌, inl, inr, Bool, true, false, ◌||◌, List, [], ◌∷◌, ltb,
  length, arith, Bool-cases,
}
use navigation.Float.{Float, less}
use navigation.Grid.{Cell}
use navigation.AStar.{eq_cell}
use navigation.AStar.Moves.{eq_cell_refl}
use navigation.PersistentMap.{Entry, store, store_all, keys, take, insert, by_time}
use navigation.PersistentMap.Entries.{has, IsDistinct, eq_cell_sym, AreKeys}

pub no_part : (a b : Bool) → (a || b) ≡ false → (a ≡ false) × (b ≡ false)
no_part a b h = ground arith

pub or_right : (a b : Bool) → b ≡ true → (a || b) ≡ true
or_right a b h = ground arith

module _ {F : Type 0} where
  has-store :
      (k j : Cell) (t : F) (c : List (Entry F))
      → eq_cell j k ≡ false
      → has j (keys (store k t c)) ≡ has j (keys c)
  unfolding store
  has-store k j t [] h = rw h refl
  has-store k j t (e ∷ c) h = elim (Bool-cases (eq_cell k e.0)) [
    | inl same ↦ rw same refl
    | inr other ↦ rw other (ap (λ b. eq_cell j e.0 || b) (has-store k j t c h))
  ]

  store-IsDistinct :
      (k : Cell) (t : F) (c : List (Entry F))
      → IsDistinct (keys c)
      → IsDistinct (keys (store k t c))
  unfolding store
  store-IsDistinct k t [] d = (refl, tt)
  store-IsDistinct k t (e ∷ c) d = elim (Bool-cases (eq_cell k e.0)) [
    | inl same ↦ rw same d
    | inr other ↦
        rw other (has-store k e.0 t c (eq_cell_sym e.0 k ∙ other) ∙ d.0, store-IsDistinct k t c d.1)
  ]

  pub store_all-IsDistinct :
      (t : F) (ks : List Cell) (c : List (Entry F))
      → IsDistinct (keys c)
      → IsDistinct (keys (store_all t ks c))
  unfolding store_all
  store_all-IsDistinct t [] c d = d
  store_all-IsDistinct t (k ∷ ks) c d =
      store_all-IsDistinct t ks (store k t c) (store-IsDistinct k t c d)

  pub AreKeys-all :
      (c : List (Entry F)) (ks : List Cell)
      → ((j : Cell) → has j ks ≡ true → has j (keys c) ≡ true)
      → AreKeys c ks
  AreKeys-all c [] h = tt
  AreKeys-all c (k ∷ ks) h = (
    h k (rw (eq_cell_refl k) refl),
    AreKeys-all c ks (λ j m. h j (or_right (eq_cell j k) (has j ks) m)),
  )

pub has-take : (n : ℕ) (ks : List Cell) (j : Cell) → has j ks ≡ false → has j (take n ks) ≡ false
has-take n [] j h = refl
has-take n (k ∷ ks) j h =
    let (a, b) = no_part (eq_cell j k) (has j ks) h in
    elim (Bool-cases (ltb 0 n)) [
      | inl more ↦ rw (more, a) (has-take (n - 1) ks j b)
      | inr less_ ↦ rw less_ refl
    ]

pub take-IsDistinct : (n : ℕ) (ks : List Cell) → IsDistinct ks → IsDistinct (take n ks)
take-IsDistinct n [] d = tt
take-IsDistinct n (k ∷ ks) d = elim (Bool-cases (ltb 0 n)) [
  | inl more ↦ rw more (has-take (n - 1) ks k d.0, take-IsDistinct (n - 1) ks d.1)
  | inr less_ ↦ rw less_ tt
]

pub length-take : (n : ℕ) (ks : List Cell) → n ≤ length ks → length (take n ks) ≡ n
length-take n [] h = omega arith
length-take n (k ∷ ks) h = elim (Bool-cases (ltb 0 n)) [
  | inl more ↦ rw more (ground (arith, length-take (n - 1) ks))
  | inr less_ ↦ rw less_ (ground arith)
]

module _ {F : Type 0} ⦃f : Float F⦄ where
  -- Sorting keeps the keys, distinct, and their number.
  has-insert :
      (e : Entry F) (c : List (Entry F)) (j : Cell)
      → has j (keys (insert e c)) ≡ (eq_cell j e.0 || has j (keys c))
  unfolding insert
  has-insert e [] j = refl
  has-insert e (x ∷ c) j = elim (Bool-cases (less x.1 e.1)) [
    | inl older ↦ rw older (
        ap (λ b. eq_cell j x.0 || b) (has-insert e c j)
        ∙ swap (eq_cell j x.0) (eq_cell j e.0) (has j (keys c)))
    | inr newer ↦ rw newer refl
  ]
    where
      swap : (a b c : Bool) → (a || (b || c)) ≡ (b || (a || c))
      swap a b c = ground arith

  insert-IsDistinct :
      (e : Entry F) (c : List (Entry F))
      → has e.0 (keys c) ≡ false
      → IsDistinct (keys c)
      → IsDistinct (keys (insert e c))
  unfolding insert
  insert-IsDistinct e [] h d = (refl, tt)
  insert-IsDistinct e (x ∷ c) h d =
      let (a, b) = no_part (eq_cell e.0 x.0) (has e.0 (keys c)) h in
      elim (Bool-cases (less x.1 e.1)) [
        | inl older ↦ rw older (
          has-insert e c x.0 ∙ ap (λ z. z || has x.0 (keys c)) (eq_cell_sym x.0 e.0 ∙ a) ∙ d.0,
          insert-IsDistinct e c b d.1,
        )
        | inr newer ↦ rw newer (h, d)
      ]

  pub has-by_time : (c : List (Entry F)) (j : Cell) → has j (keys (by_time c)) ≡ has j (keys c)
  unfolding by_time
  has-by_time [] j = refl
  has-by_time (e ∷ c) j =
      has-insert e (by_time c) j ∙ ap (λ b. eq_cell j e.0 || b) (has-by_time c j)

  pub by_time-IsDistinct :
      (c : List (Entry F)) → IsDistinct (keys c) → IsDistinct (keys (by_time c))
  unfolding by_time
  by_time-IsDistinct [] d = tt
  by_time-IsDistinct (e ∷ c) d =
      insert-IsDistinct e (by_time c) (has-by_time c e.0 ∙ d.0) (by_time-IsDistinct c d.1)

  length-insert :
      (e : Entry F) (c : List (Entry F)) → length (keys (insert e c)) ≡ suc (length (keys c))
  unfolding insert
  length-insert e [] = refl
  length-insert e (x ∷ c) = ground (arith, length-insert e c)

  pub length-by_time : (c : List (Entry F)) → length (keys (by_time c)) ≡ length c
  unfolding by_time
  length-by_time [] = refl
  length-by_time (e ∷ c) = omega (arith, length-insert e (by_time c), length-by_time c)
