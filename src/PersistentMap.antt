-- ===== src/PersistentMap.antt =====
-- `PersistentOccupancyMap` of ros2_ws/src/a_star_mpc_planner/a_star_mpc_planner/persistent_map.py. Its
-- dictionary is a list of keys with their values in the order of insertion; `none` is a `KeyError`.
mod Entries
mod Sorting
pub mod Eviction
mod Tests
use package.navigation.Prelude.{
  ℕ, ◌-◌, Bool, true, false, ◌&&◌, ◌||◌, Option, none, some, List, [], ◌∷◌, map, ltb, if◌then◌else◌,
  length,
}
use package.navigation.Float.{Float, ◌⊖◌, ◌⊗◌, ◌⊘◌, at_most, less, nought}
use package.navigation.Grid.{Cell}
use package.navigation.AStar.{eq_cell}

-- A cell and the time when it was last confirmed.
abbrev pub Entry : Type 0 → Type 0
Entry F = Cell × F

pub record PersistentMap (F : Type 0) : Type 0 where
  pub reso : F
  pub decay_sec : F
  pub max_cells : ℕ
  pub obstacle_height : F
  pub entries : List (Entry F)

module _ {F : Type 0} where
  -- `cells[k] = t`
  unfoldable pub store : Cell → F → List (Entry F) → List (Entry F)
  store k t [] = (k, t) ∷ []
  store k t ((j, s) ∷ c) =
      let rest = store k t c in if eq_cell k j then (j, t) ∷ c else (j, s) ∷ rest

  unfoldable pub store_all : F → List Cell → List (Entry F) → List (Entry F)
  unfolding store
  store_all t [] c = c
  store_all t (k ∷ ks) c = store_all t ks (store k t c)

  -- `del cells[k]`
  unfoldable pub delete : Cell → List (Entry F) → Option (List (Entry F))
  delete k [] = none
  delete k (e ∷ c) =
      let rest = delete k c in
      if eq_cell k e.0 then some c else elim rest [ none ↦ none | some c' ↦ some (e ∷ c') ]

  unfoldable pub delete_all : List Cell → List (Entry F) → Option (List (Entry F))
  delete_all [] c = some c
  delete_all (k ∷ ks) c = elim (delete k c) [ none ↦ none | some c' ↦ delete_all ks c' ]

  abbrev pub keys : List (Entry F) → List Cell
  keys [] = []
  keys (e ∷ c) = e.0 ∷ keys c

abbrev pub take : ℕ → List Cell → List Cell
take n [] = []
take n (k ∷ ks) = let rest = take (n - 1) ks in if ltb 0 n then k ∷ rest else []

module _ {F : Type 0} ⦃f : Float F⦄ where
  unfoldable pub stale_keys : F → List (Entry F) → List Cell
  stale_keys cutoff [] = []
  stale_keys cutoff (e ∷ c) =
      let rest = stale_keys cutoff c in if less e.1 cutoff then e.0 ∷ rest else rest

  -- `sorted`, which is stable, on the times.
  unfoldable pub insert : Entry F → List (Entry F) → List (Entry F)
  insert e [] = e ∷ []
  insert e (x ∷ xs) = let rest = insert e xs in if less x.1 e.1 then x ∷ rest else e ∷ x ∷ xs

  unfoldable pub by_time : List (Entry F) → List (Entry F)
  unfolding insert
  by_time [] = []
  by_time (e ∷ c) = insert e (by_time c)

  unfoldable pub evict_stale : F → F → List (Entry F) → Option (List (Entry F))
  evict_stale decay_sec now c =
      if less nought decay_sec then delete_all (stale_keys (now ⊖ decay_sec) c) c else some c

  unfoldable pub evict_excess : ℕ → List (Entry F) → Option (List (Entry F))
  evict_excess max_cells c =
      if ltb max_cells (length c)
      then delete_all (take (length c - max_cells) (keys (by_time c))) c
      else some c

  unfoldable pub evict : F → F → ℕ → List (Entry F) → Option (List (Entry F))
  unfolding evict_stale evict_excess
  evict decay_sec now max_cells c = elim (evict_stale decay_sec now c) [
    | none ↦ none
    | some c' ↦ evict_excess max_cells c'
  ]

  abbrev pub cells_of : F → List (F × F) → List Cell
  cells_of reso [] = []
  cells_of reso ((x, y) ∷ pts) = (f.round (x ⊘ reso), f.round (y ⊘ reso)) ∷ cells_of reso pts

  -- `None` and an empty scan store nothing.
  unfoldable pub update : Option (List (F × F)) → F → PersistentMap F → Option (PersistentMap F)
  unfolding store_all evict
  update points now m =
      let hits = elim points as (λ _. List Cell) [ none ↦ [] | some pts ↦ cells_of m.reso pts ] in
      elim (evict m.decay_sec now m.max_cells (store_all now hits m.entries)) [
        | none ↦ none
        | some c ↦ some (record m { entries = c })
      ]

  abbrev pub in_window : F → F → F → F → F → F → Bool
  in_window minx miny maxx maxy x y = at_most minx x && less x maxx && at_most miny y && less y maxy

  abbrev pub window_points : PersistentMap F → F → F → F → F → List (Entry F) → List (F × F × F)
  window_points m minx miny maxx maxy [] = []
  window_points m minx miny maxx maxy (e ∷ c) =
      let rest = window_points m minx miny maxx maxy c in
      let x = f.of_int e.0.0 ⊗ m.reso in
      let y = f.of_int e.0.1 ⊗ m.reso in
      if in_window minx miny maxx maxy x y then (x, y, m.obstacle_height) ∷ rest else rest

  unfoldable pub get_points_in_window : PersistentMap F → F → F → F → F → Option (List (F × F × F))
  get_points_in_window m minx miny maxx maxy =
      elim (window_points m minx miny maxx maxy m.entries) [ [] ↦ none | p ∷ ps ↦ some (p ∷ ps) ]

  unfoldable pub size : PersistentMap F → ℕ
  size m = length m.entries
