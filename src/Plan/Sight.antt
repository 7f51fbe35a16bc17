-- ===== src/Plan/Sight.antt =====
-- `_line_of_sight` ends, and says whether a line of neighbouring cells is free.
mod Line
mod Drift
use navigation.Prelude.{
  ℕ, zero, suc, ◌+◌, ◌*◌, ◌≤◌, ◌<◌, ◌≡◌, refl, ◌⊎◌, inl, inr, Bool, true, false, not, ◌&&◌, Option,
  none, some, List, [], ◌∷◌, ℤ, pos, negsuc, pos_part, neg_part, sub_ℕ, ◌+ℤ◌, ◌-ℤ◌, ◌≤ℤ◌, ltb_ℤ,
  leb, eqb_ℤ, if◌then◌else◌, int_laws, +ℤ_parts, -ℤ_parts, eq_of_parts, ap, sym, arith, Bool-cases,
  eqb_ℤ→≡, neg-ltb, neg-ltb_true, neg-ltb_false, ltb_ℤ→<, ltb_ℤ_false, <→ltb_ℤ, Bool-cases,
}
use mathlib.Core.Path.{subst}
use navigation.Grid.{Cell}
use navigation.AStar.{abs_diff}
use navigation.AStar.Moves.{IsNear}
use navigation.Plan.{sight_loop, line_of_sight, longer}
use Drift.{
  HasError, AlongX, AlongX-right, AlongX-flat, AlongX-up, AlongY, AlongY-up, AlongY-flat,
  AlongY-right,
}
use Line.{
  Toward, Toward-step, Toward-zero, Toward-ne, Toward-Between, Between-self, Sees-step, eqb_self,
  go, near_step,
}
pub use Line.{Between, FreeLine, Sees}

module _ (free : Cell → Bool) (x1 y1 : ℤ) (dx dy : ℕ) (sx sy : ℤ) where
  abbrev loop : ℕ → ℤ → ℤ → ℤ → Option Bool
  loop = sight_loop free x1 y1 dx dy sx sy

  -- One round at a free cell that is not the last.
  loop_round :
      (fuel : ℕ) (x y err : ℤ) (right up : Bool)
      → free (x, y) ≡ true
      → (eqb_ℤ x x1 && eqb_ℤ y y1) ≡ false
      → ltb_ℤ (sub_ℕ 0 dy) (err +ℤ err) ≡ right
      → ltb_ℤ (err +ℤ err) (pos dx) ≡ up
      → let err' = if right then err -ℤ pos dy else err in
        loop (suc fuel) x y err
        ≡ loop fuel (go right x sx) (go up y sy) (if up then err' +ℤ pos dx else err')
  unfolding sight_loop
  loop_round fuel x y err right up f e r u = rw (f, e, r, u)

  loop_blocked :
      (fuel : ℕ) (x y err : ℤ)
      → free (x, y) ≡ false
      → Sees free (x, y) (x1, y1) (loop (suc fuel) x y err)
  unfolding sight_loop
  loop_blocked fuel x y err f = rw (f, sight_loop) ((x, y), f, Between-self x x1, Between-self y y1)

  loop_last :
      (fuel : ℕ) (x y err : ℤ)
      → x ≡ x1
      → y ≡ y1
      → Sees free (x, y) (x1, y1) (loop (suc fuel) x y err)
  unfolding sight_loop
  loop_last fuel x y err ex ey = elim (Bool-cases (free (x, y))) [
    | inr f ↦ loop_blocked fuel x y err f
    | inl f ↦
        subst (Sees free (x, y) (x1, y1)) (sym (ends f)) ((x, y) ∷ [], (refl, ground arith, f))
  ]
    where
      ends : free (x, y) ≡ true → loop (suc fuel) x y err ≡ some true
      ends f = rw (f, ex, ey, eqb_self x1, eqb_self y1)

  -- A round that steps to a neighbour on the way, followed by the rest.
  loop_step :
      (fuel : ℕ) (x y err : ℤ) (right up : Bool) (rx ry : ℕ)
      → (eqb_ℤ x x1 && eqb_ℤ y y1) ≡ false
      → ltb_ℤ (sub_ℕ 0 dy) (err +ℤ err) ≡ right
      → ltb_ℤ (err +ℤ err) (pos dx) ≡ up
      → Toward sx x rx x1
      → Toward sy y ry y1
      → (right ≡ true → (r : ℕ) × (rx ≡ suc r))
      → (up ≡ true → (r : ℕ) × (ry ≡ suc r))
      → let err' = if right then err -ℤ pos dy else err in
        Sees free
          (go right x sx, go up y sy)
          (x1, y1)
          (loop fuel (go right x sx) (go up y sy) (if up then err' +ℤ pos dx else err'))
        → Sees free (x, y) (x1, y1) (loop (suc fuel) x y err)
  loop_step fuel x y err right up rx ry e r u tx ty mx my s = elim (Bool-cases (free (x, y))) [
    | inr f ↦ loop_blocked fuel x y err f
    | inl f ↦
        let nx = near_step right sx x rx x1 tx in
        let ny = near_step up sy y ry y1 ty in
        subst (Sees free (x, y) (x1, y1)) (sym (loop_round fuel x y err right up f e r u)) (
          Sees-step free (x, y) (go right x sx, go up y sy) (x1, y1) _ f (nx.0, nx.1, ny.0, ny.1)
            (within sx x rx x1 right tx mx) (within sy y ry y1 up ty my) s)
  ]
    where
      within :
          (s x : ℤ) (r : ℕ) (x1 : ℤ) (moves : Bool)
          → Toward s x r x1
          → (moves ≡ true → (k : ℕ) × (r ≡ suc k))
          → (c : ℤ) → Between (go moves x s) x1 c
          → Between x x1 c
      within s x r x1 false t m c b = b
      within s x r x1 true t m c b =
          let (k, e) = m refl in Toward-Between s x k x1 c (subst (λ z. Toward s x z x1) e t) b

  not_last : (r : ℕ) (x y : ℤ) → Toward sx x (suc r) x1 → (eqb_ℤ x x1 && eqb_ℤ y y1) ≡ false
  not_last r x y t = rw (Toward-ne sx x r x1 t)

  not_last_up : (r : ℕ) (x y : ℤ) → Toward sy y (suc r) y1 → (eqb_ℤ x x1 && eqb_ℤ y y1) ≡ false
  not_last_up r x y t = ground (arith, Toward-ne sy y r y1 t)

  loop-Sees_x :
      (fuel rx ry : ℕ) (x y err : ℤ)
      → dy ≤ dx
      → Toward sx x rx x1
      → Toward sy y ry y1
      → AlongX dx dy err rx ry
      → rx < fuel
      → Sees free (x, y) (x1, y1) (loop fuel x y err)
  loop-Sees_x zero rx ry x y err major tx ty i enough = absurd (omega arith)
  loop-Sees_x (suc fuel) zero zero x y err major tx ty i enough =
      loop_last fuel x y err (Toward-zero sx x x1 tx) (Toward-zero sy y y1 ty)
  loop-Sees_x (suc fuel) zero (suc ry) x y err major tx ty i enough = absurd (omega arith)
  loop-Sees_x (suc fuel) (suc rx) ry x y err major tx ty i enough =
      let right = AlongX-right dx dy err (suc rx) ry i in
      let more = not_last rx x y tx in
      let tx' = Toward-step sx x rx x1 tx in
      elim (Bool-cases (ltb_ℤ (err +ℤ err) (pos dx))) [
        | inr flat ↦
            loop_step fuel x y err true false (suc rx) ry more right flat tx ty (λ _. (rx, refl))
              (λ e. cc)
              (loop-Sees_x fuel rx ry (x +ℤ sx) y (err -ℤ pos dy) major tx' ty
                (AlongX-flat dx dy err rx ry major i flat) (omega arith))
        | inl up ↦
            let (r, e, i') = AlongX-up dx dy err rx ry major i up in
            let ty' = subst (λ z. Toward sy y z y1) e ty in
            loop_step fuel x y err true true (suc rx) ry more right up tx ty (λ _. (rx, refl))
              (λ _. (r, e))
              (loop-Sees_x fuel rx r (x +ℤ sx) (y +ℤ sy) (err -ℤ pos dy +ℤ pos dx) major tx'
                (Toward-step sy y r y1 ty') i' (omega arith))
      ]

  loop-Sees_y :
      (fuel rx ry : ℕ) (x y err : ℤ)
      → dx ≤ dy
      → Toward sx x rx x1
      → Toward sy y ry y1
      → AlongY dx dy err rx ry
      → ry < fuel
      → Sees free (x, y) (x1, y1) (loop fuel x y err)
  loop-Sees_y zero rx ry x y err major tx ty i enough = absurd (omega arith)
  loop-Sees_y (suc fuel) zero zero x y err major tx ty i enough =
      loop_last fuel x y err (Toward-zero sx x x1 tx) (Toward-zero sy y y1 ty)
  loop-Sees_y (suc fuel) (suc rx) zero x y err major tx ty i enough = absurd (omega arith)
  loop-Sees_y (suc fuel) rx (suc ry) x y err major tx ty i enough =
      let up = AlongY-up dx dy err rx (suc ry) i in
      let more = not_last_up ry x y ty in
      let ty' = Toward-step sy y ry y1 ty in
      elim (Bool-cases (ltb_ℤ (sub_ℕ 0 dy) (err +ℤ err))) [
        | inr flat ↦
            loop_step fuel x y err false true rx (suc ry) more flat up tx ty (λ e. cc)
              (λ _. (ry, refl))
              (loop-Sees_y fuel rx ry x (y +ℤ sy) (err +ℤ pos dx) major tx ty'
                (AlongY-flat dx dy err rx ry major i flat) (omega arith))
        | inl right ↦
            let (r, e, i') = AlongY-right dx dy err rx ry major i right in
            let tx' = subst (λ z. Toward sx x z x1) e tx in
            loop_step fuel x y err true true rx (suc ry) more right up tx ty (λ _. (r, e))
              (λ _. (ry, refl))
              (loop-Sees_y fuel r ry (x +ℤ sx) (y +ℤ sy) (err -ℤ pos dy +ℤ pos dx) major
                (Toward-step sx x r x1 tx') ty' i' (omega arith))
      ]

sub_ℕ_parts : (a b : ℕ) → pos_part (sub_ℕ a b) + b ≡ neg_part (sub_ℕ a b) + a
sub_ℕ_parts a b = ground arith

module _ (free : Cell → Bool) (x0 y0 x1 y1 : ℤ) (sx sy : ℤ) where
  abbrev from_start : ℕ → ℕ → ℕ → Option Bool
  from_start dx dy fuel = sight_loop free x1 y1 dx dy sx sy fuel x0 y0 (sub_ℕ dx dy)

  start-AlongX : (dx dy : ℕ) → dy ≤ dx → 0 < dx → AlongX dx dy (sub_ℕ dx dy) dx dy
  start-AlongX dx dy major more = record {
    error = omega (arith, sub_ℕ_parts dx dy);
    above = omega arith;
    below = omega arith;
    ahead = omega arith;
  }

  start-AlongY : (dx dy : ℕ) → dx ≤ dy → 0 < dy → AlongY dx dy (sub_ℕ dx dy) dx dy
  start-AlongY dx dy major more = record {
    error = omega (arith, sub_ℕ_parts dx dy);
    above = omega arith;
    below = omega arith;
    ahead = omega arith;
  }

  start-Sees :
      (dx dy : ℕ)
      → Toward sx x0 dx x1
      → Toward sy y0 dy y1
      → Sees free (x0, y0) (x1, y1) (from_start dx dy (longer dx dy + 1))
  start-Sees zero zero tx ty =
      loop_last free x1 y1 0 0 sx sy 0 x0 y0 (sub_ℕ 0 0) (Toward-zero sx x0 x1 tx)
        (Toward-zero sy y0 y1 ty)
  start-Sees dx dy tx ty = elim (Bool-cases (leb dx dy)) [
    | inl up ↦
        loop-Sees_y free x1 y1 dx dy sx sy (longer dx dy + 1) dx dy x0 y0 (sub_ℕ dx dy)
          (ground arith) tx ty (start-AlongY dx dy (ground arith) (ground arith)) (ground arith)
    | inr flat ↦
        loop-Sees_x free x1 y1 dx dy sx sy (longer dx dy + 1) dx dy x0 y0 (sub_ℕ dx dy)
          (ground arith) tx ty (start-AlongX dx dy (ground arith) (ground arith)) (ground arith)
  ]

abs_diff-Toward : (a b : ℤ) → Toward (if ltb_ℤ a b then pos 1 else negsuc 0) a (abs_diff a b) b
abs_diff-Toward a b = elim (Bool-cases (ltb_ℤ a b)) [
  | inl e ↦ rw e (inl (refl, omega (int_laws, ltb_ℤ→< a b e)))
  | inr e ↦ rw e (inr (refl, omega (int_laws, ltb_ℤ_false a b e)))
]

-- From one cell to any other the loop ends. If it answers true, the cells from the one to the other,
-- each a neighbour of the one before it, are all free; if it answers false, a cell that is not free
-- lies in the rectangle that the two span.
pub line_of_sight-Sees : (free : Cell → Bool) (a b : Cell) → Sees free a b (line_of_sight free a b)
unfolding line_of_sight
line_of_sight-Sees free a b =
    start-Sees free a.0 a.1 b.0 b.1 _ _ (abs_diff a.0 b.0) (abs_diff a.1 b.1)
      (abs_diff-Toward a.0 b.0) (abs_diff-Toward a.1 b.1)
