-- ===== src/AStar/Moves.antt =====
-- The moves that A* allows, said of cells rather than of the motion table, and the routes and the
-- reachability that they give.
use navigation.Prelude.{
  ◌≡◌, ◌≢◌, refl, ◌⊎◌, inl, inr, Bool, true, false, List, [], ◌∷◌, ◌++◌, ℤ, pos, negsuc, pos_part,
  neg_part, ◌+ℤ◌, ◌≤ℤ◌, ltb_ℤ, ltb_ℤ→<, int_laws, arith, Bool-cases, ◌∈◌, All, ap, sym,
}
use mathlib.Core.Path.{subst}
use navigation.Float.{Float, unit}
use navigation.Grid.{Cell, GridMap, inside}
use navigation.AStar.{diagonal, Planner, is_free, may_move, eq_cell, motion}

-- One of the eight neighbours, or the cell itself.
abbrev pub IsNear : Cell → Cell → Type 0
IsNear (ax, ay) (bx, by) =
    (bx ≤ℤ ax +ℤ pos 1) × (ax ≤ℤ bx +ℤ pos 1) × (by ≤ℤ ay +ℤ pos 1) × (ay ≤ℤ by +ℤ pos 1)

module _ (free : Cell → Bool) where
  -- A step to a free neighbour that, if it is diagonal, has both cells at its corner free.
  pub record Move (a b : Cell) : Type 0 where
    pub near : IsNear a b
    pub moved : a ≢ b
    pub free_target : free b ≡ true
    pub free_corner : a.0 ≢ b.0 → a.1 ≢ b.1 → (free (b.0, a.1) ≡ true) × (free (a.0, b.1) ≡ true)

  -- A route from `a` to `b` by moves.
  abbrev pub Route : Cell → Cell → List Cell → Type 0
  Route a b [] = ⊥
  Route a b (c ∷ []) = (a ≡ c) × (b ≡ c)
  Route a b (c ∷ d ∷ cs) = (a ≡ c) × Move c d × Route d b (d ∷ cs)

  pub data Reach (a : Cell) : Cell → Type 0 where
    here : Reach a a
    step : {b c : Cell} → Reach a b → Move b c → Reach a c

  pub Route-snoc :
      (a b c : Cell) (cs : List Cell) → Route a b cs → Move b c → Route a c (cs ++ c ∷ [])
  Route-snoc a b c [] r m = absurd r
  Route-snoc a b c (x ∷ []) r m = (r.0, subst (λ z. Move z c) r.1 m, (refl, refl))
  Route-snoc a b c (x ∷ y ∷ cs) r m = (r.0, r.1, Route-snoc y b c (y ∷ cs) r.2 m)

pub eq_cell→≡ : (a b : Cell) → eq_cell a b ≡ true → a ≡ b
eq_cell→≡ a b h = ground arith

pub eq_cell_refl : (a : Cell) → eq_cell a a ≡ true
eq_cell_refl a = ground arith

module _ {F : Type 0} ⦃f : Float F⦄ (p : Planner F) (g : GridMap F) where
  -- A free cell lies on the grid.
  pub inside_of_free : (c : Cell) → is_free p g c ≡ true → inside g.cells c ≡ true
  unfolding is_free inside
  inside_of_free c h = ground arith

-- A displacement to one of the eight neighbours.
abbrev pub IsUnitStep : ℤ → ℤ → Type 0
IsUnitStep dx dy =
    (dx ≤ℤ pos 1)
    × (negsuc 0 ≤ℤ dx)
    × (dy ≤ℤ pos 1)
    × (negsuc 0 ≤ℤ dy)
    × ((dx ≢ pos 0) ⊎ (dy ≢ pos 0))

abbrev pub shift : Cell → ℤ → ℤ → Cell
shift (x, y) dx dy = (x +ℤ dx, y +ℤ dy)

pub shift_self : (a d : ℤ) → a +ℤ d ≡ a → d ≡ pos 0
shift_self a d e = omega (int_laws, ap pos_part e, ap neg_part e)

pub shift_zero : (a d : ℤ) → d ≡ pos 0 → a +ℤ d ≡ a
shift_zero a d e = omega (int_laws, ap pos_part e, ap neg_part e)

abbrev pub IsStep : {F : Type 0} → ℤ × ℤ × F → Type 0
IsStep m = IsUnitStep m.0 m.1

pub motion-IsStep : (F : Type 0) ⦃f : Float F⦄ → All IsStep (motion {F = F})
motion-IsStep F = ground arith

near_cases :
    (a b : ℤ)
    → b ≤ℤ a +ℤ pos 1
    → a ≤ℤ b +ℤ pos 1
    → (b ≡ a +ℤ negsuc 0) ⊎ (b ≡ a +ℤ pos 0) ⊎ (b ≡ a +ℤ pos 1)
near_cases a b h k = elim (Bool-cases (ltb_ℤ a b)) [
  | inl e ↦ inr (inr (omega (int_laws, ltb_ℤ→< a b e)))
  | inr e ↦ elim (Bool-cases (ltb_ℤ b a)) [
    | inl d ↦ inl (omega (int_laws, ltb_ℤ→< b a d))
    | inr d ↦ inr (inl (omega (int_laws, not_ltb a b e, not_ltb b a d)))
  ]
]
  where
    not_ltb : (x y : ℤ) → ltb_ℤ x y ≡ false → y ≤ℤ x
    not_ltb x y e = ground arith

-- The motion table reaches every neighbour.
pub near-motion :
    (F : Type 0) ⦃f : Float F⦄ (a b : Cell)
    → IsNear a b
    → a ≢ b
    → (m : ℤ × ℤ × F) × (m ∈ motion) × (b ≡ shift a m.0 m.1)
near-motion F (ax, ay) (bx, by) (h, k, i, j) ne = elim (near_cases ax bx h k) [
  | inl x ↦ elim (near_cases ay by i j) [
    | inl y ↦ ((negsuc 0, negsuc 0, diagonal), ground arith, ground arith)
    | inr (inl y) ↦ ((negsuc 0, pos 0, unit), ground arith, ground arith)
    | inr (inr y) ↦ ((negsuc 0, pos 1, diagonal), ground arith, ground arith)
  ]
  | inr (inl x) ↦ elim (near_cases ay by i j) [
    | inl y ↦ ((pos 0, negsuc 0, unit), ground arith, ground arith)
    | inr (inl y) ↦ absurd (ne (ground (arith, shift_zero ax (pos 0), shift_zero ay (pos 0))))
    | inr (inr y) ↦ ((pos 0, pos 1, unit), ground arith, ground arith)
  ]
  | inr (inr x) ↦ elim (near_cases ay by i j) [
    | inl y ↦ ((pos 1, negsuc 0, diagonal), ground arith, ground arith)
    | inr (inl y) ↦ ((pos 1, pos 0, unit), ground arith, ground arith)
    | inr (inr y) ↦ ((pos 1, pos 1, diagonal), ground arith, ground arith)
  ]
]

module _ {F : Type 0} ⦃f : Float F⦄ where
  module _ (p : Planner F) (g : GridMap F) where
    -- The guards of the motion loop pass exactly the moves.
    pub may_move_sound :
        (c : Cell) (dx dy : ℤ)
        → IsUnitStep dx dy
        → may_move p g c dx dy ≡ true
        → Move (is_free p g) c (shift c dx dy)
    unfolding may_move
    may_move_sound c dx dy u h = record {
      near = omega (int_laws);
      moved = λ e. elim u.4 [
        | inl nx ↦ nx (shift_self c.0 dx (sym (ap (λ (z : Cell). z.0) e)))
        | inr ny ↦ ny (shift_self c.1 dy (sym (ap (λ (z : Cell). z.1) e)))
      ];
      free_target = ground arith;
      free_corner = λ nx ny. ground (arith, shift_zero c.0 dx, shift_zero c.1 dy);
    }

    pub may_move_complete :
        (c : Cell) (dx dy : ℤ) → Move (is_free p g) c (shift c dx dy) → may_move p g c dx dy ≡ true
    unfolding may_move
    may_move_complete c dx dy m =
        ground (arith, m.free_corner, m.free_target, shift_self c.0 dx, shift_self c.1 dy)
