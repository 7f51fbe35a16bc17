-- ===== src/GlobalCostmap/Breadcrumb.antt =====
-- The breadcrumb of the robot's drive, in which the global costmap stays free (`_free` of global_costmap.py).
use navigation.Prelude.{
  ℕ, ◌≡◌, refl, ap, sym, Bool, true, ◌&&◌, ◌||◌, Option, none, some, ℤ, pos, List, [], ◌∷◌, arith,
  option-split, larger, leb_ℤ, ltb_ℤ, smaller, +ℤ_parts, ◌+ℤ◌, ◌-ℤ◌,
}
use mathlib.Core.Path.{subst}
use navigation.Float.{Float, ◌⊕◌, ◌⊖◌, ◌⊗◌, ◌⊘◌, at_most, nought}
use navigation.Grid.{Cell, inside}
use navigation.GlobalCostmap.{
  Layers, GlobalCostmap, built, build, updates, update, set_origin, stamp_disk,
}
use navigation.GlobalCostmap.Costs.{shown}

inside-parts :
    (n : ℕ) (x y : ℤ)
    → inside n (x, y) ≡ true
    → (leb_ℤ (pos 0) x ≡ true)
      × (ltb_ℤ x (pos n) ≡ true)
      × (leb_ℤ (pos 0) y ≡ true)
      × (ltb_ℤ y (pos n) ≡ true)
unfolding inside
inside-parts n x y h = (ground arith, ground arith, ground arith, ground arith)

-- A coordinate on the grid, and within `r` of `t`, lies between the bounds of a loop over both.
axis_bounds :
    (n : ℕ) (t r x : ℤ)
    → leb_ℤ (pos 0) x ≡ true
    → ltb_ℤ x (pos n) ≡ true
    → leb_ℤ (t -ℤ r) x ≡ true
    → leb_ℤ x (t +ℤ r) ≡ true
    → (leb_ℤ (larger (pos 0) (t -ℤ r)) x ≡ true)
      × (ltb_ℤ x (smaller (pos n) (t +ℤ r +ℤ pos 1)) ≡ true)
axis_bounds n t r x x0 xn lo hi = (ground arith, ground (arith, +ℤ_parts (t +ℤ r) (pos 1)))

all_five :
    (a b c d e : Bool)
    → a ≡ true
    → b ≡ true
    → c ≡ true
    → d ≡ true
    → e ≡ true
    → (a && b && c && d && e) ≡ true
all_five a b c d e p q r s t = ground arith

module _ {F : Type 0} ⦃f : Float F⦄ where
  -- The costmap records that the robot has been in the cell.
  abbrev pub IsDriven : Cell → Option (Layers F) → Type 0
  IsDriven c none = ⊥
  IsDriven c (some l) = l.free c ≡ true

  set_origin_driven :
      (xy : F × F) (g : GlobalCostmap F) (c : Cell)
      → IsDriven c g.layers
      → (set_origin xy g).1.free c ≡ true
  unfolding set_origin
  set_origin_driven xy g c h = of_layers g.layers h
    where
      of_layers :
          (o : Option (Layers F))
          → IsDriven c o
          → (set_origin xy (record g { layers = o })).1.free c ≡ true
      of_layers none h = absurd h
      of_layers (some l) h = h

  update-IsDriven :
      (points : Option (List (F × F))) (xy : F × F) (g : GlobalCostmap F) (c : Cell)
      → IsDriven c g.layers
      → IsDriven c (update points xy g).layers
  unfolding update
  update-IsDriven points xy g c h =
      either (stamp_disk (set_origin xy g).0 xy (set_origin xy g).0.free_radius c) _
        (set_origin_driven xy g c h)
    where
      either : (a b : Bool) → b ≡ true → (a || b) ≡ true
      either a b h = ground arith

  updates-IsDriven :
      (frames : List (Option (List (F × F)) × (F × F))) (g : GlobalCostmap F) (c : Cell)
      → IsDriven c g.layers
      → IsDriven c (updates frames g).layers
  unfolding updates
  updates-IsDriven [] g c h = h
  updates-IsDriven ((points, xy) ∷ frames) g c h =
      updates-IsDriven frames (update points xy g) c (update-IsDriven points xy g c h)

  driven_shown :
      (edt : ℕ → (Cell → Bool) → Cell → F) (exp : F → F) (g : GlobalCostmap F) (c : Cell)
      → IsDriven c g.layers
      → shown (build edt exp g) c ≡ some nought
  unfolding build built
  driven_shown edt exp g c h = of_layers g.layers refl h
    where
      of_layers :
          (o : Option (Layers F))
          → g.layers ≡ o
          → IsDriven c o
          → shown (build edt exp g) c ≡ some nought
      of_layers none eq h = absurd h
      of_layers (some l) eq h = rw eq (ap some (ground (arith, h)))

  -- The place of a position in a grid, in cells.
  abbrev pub place : GlobalCostmap F → F × F → F × F
  place g xy = ((xy.0 ⊖ g.minx) ⊘ g.reso, (xy.1 ⊖ g.miny) ⊘ g.reso)

  -- The radius of the disk that the robot frees, in whole cells, at least one.
  abbrev pub free_cells : GlobalCostmap F → ℤ
  free_cells g = larger (pos 1) (f.round (g.free_radius ⊘ g.reso))

  -- A cell of the grid in the disk around a place: in a square around the cell of the place, and with its
  -- corner no further from the place than the radius.
  pub record IsInDisk (n : ℕ) (r : ℤ) (at : F × F) (c : Cell) : Type 0 where
    pub on_grid : inside n c ≡ true
    pub not_left : leb_ℤ (f.trunc at.0 -ℤ r) c.0 ≡ true
    pub not_right : leb_ℤ c.0 (f.trunc at.0 +ℤ r) ≡ true
    pub not_below : leb_ℤ (f.trunc at.1 -ℤ r) c.1 ≡ true
    pub not_above : leb_ℤ c.1 (f.trunc at.1 +ℤ r) ≡ true
    pub close :
        at_most
          ((f.of_int c.0 ⊖ at.0) ⊗ (f.of_int c.0 ⊖ at.0)
            ⊕ (f.of_int c.1 ⊖ at.1) ⊗ (f.of_int c.1 ⊖ at.1))
          (f.of_int r ⊗ f.of_int r)
        ≡ true

  stamp_disk-IsInDisk :
      (g : GlobalCostmap F) (xy : F × F) (c : Cell)
      → IsInDisk g.cells (free_cells g) (place g xy) c
      → stamp_disk g xy g.free_radius c ≡ true
  unfolding stamp_disk inside
  stamp_disk-IsInDisk g xy (x, y) h =
      let (x0, xn, y0, yn) = inside-parts g.cells x y h.on_grid in
      let (lx, rx) =
        axis_bounds g.cells (f.trunc (place g xy).0) (free_cells g) x x0 xn h.not_left
          h.not_right in
      let (ly, ry) =
        axis_bounds g.cells (f.trunc (place g xy).1) (free_cells g) y y0 yn h.not_below
          h.not_above in
      all_five _ _ _ _ _ lx rx ly ry h.close

  update-IsDriven_here :
      (points : Option (List (F × F))) (xy : F × F) (g : GlobalCostmap F) (c : Cell)
      → stamp_disk (set_origin xy g).0 xy (set_origin xy g).0.free_radius c ≡ true
      → IsDriven c (update points xy g).layers
  unfolding update
  update-IsDriven_here points xy g c h = rw h refl

  -- The origin does not change the number of cells, their size or the radius.
  set_origin-same :
      (xy : F × F) (g : GlobalCostmap F)
      → ((set_origin xy g).0.cells ≡ g.cells) × (free_cells (set_origin xy g).0 ≡ free_cells g)
  unfolding set_origin
  set_origin-same xy g =
      option-split
        (λ (o : GlobalCostmap F × Layers F).
          (o.0.cells ≡ g.cells) × (free_cells o.0 ≡ free_cells g))
        g.layers (λ _. (refl, refl)) (λ l _. (refl, refl))

  placed_disk :
      (xy : F × F) (g : GlobalCostmap F) (c : Cell)
      → IsInDisk g.cells (free_cells g) (place (set_origin xy g).0 xy) c
      → stamp_disk (set_origin xy g).0 xy (set_origin xy g).0.free_radius c ≡ true
  placed_disk xy g c h =
      let g' = (set_origin xy g).0 in
      let (n, r) = set_origin-same xy g in
      stamp_disk-IsInDisk g' xy c (
        subst (λ m. IsInDisk m (free_cells g') (place g' xy) c) (sym n)
          (subst (λ k. IsInDisk g.cells k (place g' xy) c) (sym r) h))

  -- A frame at a position of the robot frees the cells of the grid in the disk around that position, where
  -- the first frame of all places the grid. Whatever frames are folded in after it, the costmap that is
  -- then built shows no cost in these cells: the way back stays open.
  pub way_back :
      (edt : ℕ → (Cell → Bool) → Cell → F) (exp : F → F) (points : Option (List (F × F)))
      (xy : F × F) (frames : List (Option (List (F × F)) × (F × F))) (g : GlobalCostmap F)
      (c : Cell)
      → IsInDisk g.cells (free_cells g) (place (set_origin xy g).0 xy) c
      → shown (build edt exp (updates ((points, xy) ∷ frames) g)) c ≡ some nought
  unfolding updates
  way_back edt exp points xy frames g c h =
      driven_shown edt exp (updates frames (update points xy g)) c (
        updates-IsDriven frames (update points xy g) c
          (update-IsDriven_here points xy g c (placed_disk xy g c h)))
