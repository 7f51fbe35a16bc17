-- ===== src/GlobalCostmap/Costs.antt =====
-- How the two layers decide the costs that the global planner reads.
use navigation.Prelude.{
  ℕ, zero, suc, ◌<◌, ◌≡◌, refl, ap, sym, ◌∙◌, Bool, true, false, ◌&&◌, ◌||◌, not, Option, none,
  some, pos, negsuc, arith, if◌then◌else◌,
}
use mathlib.Core.Path.{subst}
use navigation.Float.{Float, IsOrdered, ◌⊗◌, ◌≼◌, at_most, nought, unit}
use navigation.Grid.{Cell, inside}
use navigation.GlobalCostmap.{
  Layers, GlobalCostmap, any_row, any_rows, occupied, min_d, band_cost, built, build,
}

any_row_of :
    (mask : Cell → Bool) (i j n : ℕ) → j < n → mask (pos i, pos j) ≡ true → any_row mask i n ≡ true
any_row_of mask i j zero lt h = absurd (omega arith)
any_row_of mask i j (suc n) lt h = ground (arith, any_row_of mask i j n)

any_rows_of :
    (mask : Cell → Bool) (i j n k : ℕ)
    → i < k
    → j < n
    → mask (pos i, pos j) ≡ true
    → any_rows mask n k ≡ true
any_rows_of mask i j n zero lt l h = absurd (omega arith)
any_rows_of mask i j n (suc k) lt l h =
    ground (arith, any_rows_of mask i j n k, any_row_of mask i j n)

any_of :
    (mask : Cell → Bool) (n : ℕ) (c : Cell)
    → inside n c ≡ true
    → mask c ≡ true
    → any_rows mask n n ≡ true
unfolding inside
any_of mask n (pos i, pos j) h m = any_rows_of mask i j n n (ground arith) (ground arith) m
any_of mask n (pos i, negsuc j) h m = ground arith
any_of mask n (negsuc i, y) h m = ground arith

not_free : (b a : Bool) → (a && not b) ≡ true → b ≡ false
not_free b a h = ground arith

module _ {F : Type 0} ⦃f : Float F⦄ where
  -- The cost that a costmap shows for a cell.
  abbrev pub shown : GlobalCostmap F → Cell → Option F
  shown g c = elim g.layers [ none ↦ none | some l ↦ some (l.gmap c) ]

  -- A background cell of the distance transform is at distance 0.
  abbrev pub IsDistance : (ℕ → (Cell → Bool) → Cell → F) → Type 0
  IsDistance edt =
      (n : ℕ) (mask : Cell → Bool) (c : Cell)
      → inside n c ≡ true
      → mask c ≡ false
      → edt n mask c ≡ nought

  -- The cost of a cell that is known, from the robot's drive or from hits.
  abbrev pub known_cost : Bool → F
  known_cost driven = if driven then nought else unit

module _ {F : Type 0} ⦃f : Float F⦄ (edt : ℕ → (Cell → Bool) → Cell → F) (exp : F → F)
    (laws : IsOrdered F) (distance : IsDistance edt) where
  built-occupied :
      (g : GlobalCostmap F) (l : Layers F) (c : Cell)
      → inside g.cells c ≡ true
      → nought ≼ g.robot_radius
      → occupied g l c ≡ true
      → built edt exp g l c ≡ unit
  unfolding built
  built-occupied g l c i r o =
      let zero_d : min_d edt g l c ≡ nought =
        ap (λ x. x ⊗ g.reso) (distance g.cells (λ c'. not (occupied g l c')) c i (ap not o))
        ∙ laws.nought_mul g.reso in
      let close : at_most (min_d edt g l c) g.robot_radius ≡ true =
        subst (λ d. at_most d g.robot_radius ≡ true) (sym zero_d) r in
      let any : any_rows (occupied g l) g.cells g.cells ≡ true =
        any_of (occupied g l) g.cells c i o in
      let undriven : l.free c ≡ false = not_free (l.free c) _ o in
      lethal (any_rows (occupied g l) g.cells g.cells) (l.free c)
        (at_most (min_d edt g l c) g.robot_radius) any undriven close
    where
      lethal :
          (a b d : Bool)
          → a ≡ true
          → b ≡ false
          → d ≡ true
          → (if a
              then if b then nought else if d then unit else band_cost exp g (min_d edt g l c)
              else nought)
            ≡ unit
      lethal a b d h k m = ground (arith, h, k, m)

  built-free :
      (g : GlobalCostmap F) (l : Layers F) (c : Cell)
      → l.free c ≡ true
      → built edt exp g l c ≡ nought
  unfolding built
  built-free g l c h = ground (arith, h)

  -- For a robot radius that is not negative: in the costmap that is built, a cell of the grid where the
  -- robot has been costs nothing, whatever has been seen there or beside it; and a cell whose hits have
  -- reached the threshold, and where the robot has not been, is lethal.
  pub build_known :
      (g : GlobalCostmap F) (l : Layers F) (c : Cell)
      → g.layers ≡ some l
      → inside g.cells c ≡ true
      → nought ≼ g.robot_radius
      → (l.free c || at_most g.hit_threshold (l.occ c)) ≡ true
      → shown (build edt exp g) c ≡ some (known_cost (l.free c))
  unfolding build
  build_known g l c eq i r known = built_shown ∙ ap some (decided (l.free c) refl)
    where
      built_shown : shown (build edt exp g) c ≡ some (built edt exp g l c)
      built_shown = rw eq refl

      decided : (b : Bool) → l.free c ≡ b → built edt exp g l c ≡ known_cost (l.free c)
      decided true h = built-free g l c h ∙ ap known_cost (sym h)
      decided false h = built-occupied g l c i r (ground (arith, known, h)) ∙ ap known_cost (sym h)
