-- ===== src/Plan/Sight/Drift.antt =====
-- The error term of `_line_of_sight`: along the longer side every round steps, and the line does not
-- drift off by more than half a cell.
use navigation.Prelude.{
  ℕ, zero, suc, ◌+◌, ◌*◌, ◌≤◌, ◌<◌, ◌≡◌, refl, true, false, ℤ, pos, pos_part, neg_part, sub_ℕ, ◌+ℤ◌,
  ◌-ℤ◌, ltb_ℤ, int_laws, neg-ltb, neg-ltb_true, neg-ltb_false, ltb_ℤ→<, ltb_ℤ_false, <→ltb_ℤ,
}

module _ (dx dy : ℕ) where
  -- The error term that belongs to `rx` and `ry` steps left.
  abbrev pub HasError : ℤ → ℕ → ℕ → Type 0
  HasError err rx ry = pos_part err + dy + ry * dx ≡ neg_part err + dx + rx * dy

  -- With the longer side along x: the line has not drifted off.
  pub record AlongX (err : ℤ) (rx ry : ℕ) : Type 0 where
    pub error : HasError err rx ry
    pub above : 2 * (ry * dx) ≤ 2 * (rx * dy) + dx
    pub below : 2 * (rx * dy) < 2 * (ry * dx) + dx
    pub ahead : dy + 2 * (ry * dx) < 2 * (rx * dy) + 2 * dx

  pub AlongX-right :
      (err : ℤ) (rx ry : ℕ) → AlongX err rx ry → ltb_ℤ (sub_ℕ 0 dy) (err +ℤ err) ≡ true
  AlongX-right err rx ry i = neg-ltb dy (err +ℤ err) (omega (int_laws))

  pub AlongX-flat :
      (err : ℤ) (rx ry : ℕ)
      → dy ≤ dx
      → AlongX err (suc rx) ry
      → ltb_ℤ (err +ℤ err) (pos dx) ≡ false
      → AlongX (err -ℤ pos dy) rx ry
  AlongX-flat err rx ry major i flat =
      let low = ltb_ℤ_false (err +ℤ err) (pos dx) flat in omega int_laws

  pub AlongX-up :
      (err : ℤ) (rx ry : ℕ)
      → dy ≤ dx
      → AlongX err (suc rx) ry
      → ltb_ℤ (err +ℤ err) (pos dx) ≡ true
      → (r : ℕ) × (ry ≡ suc r) × AlongX (err -ℤ pos dy +ℤ pos dx) rx r
  AlongX-up err rx zero major i up =
      let high = ltb_ℤ→< (err +ℤ err) (pos dx) up in absurd (omega int_laws)
  AlongX-up err rx (suc r) major i up =
      let high = ltb_ℤ→< (err +ℤ err) (pos dx) up in (r, refl, omega int_laws)

  -- The same with the longer side along y.
  pub record AlongY (err : ℤ) (rx ry : ℕ) : Type 0 where
    pub error : HasError err rx ry
    pub above : 2 * (rx * dy) ≤ 2 * (ry * dx) + dy
    pub below : 2 * (ry * dx) < 2 * (rx * dy) + dy
    pub ahead : dx + 2 * (rx * dy) < 2 * (ry * dx) + 2 * dy

  pub AlongY-up : (err : ℤ) (rx ry : ℕ) → AlongY err rx ry → ltb_ℤ (err +ℤ err) (pos dx) ≡ true
  AlongY-up err rx ry i = <→ltb_ℤ (err +ℤ err) (pos dx) (omega int_laws)

  pub AlongY-flat :
      (err : ℤ) (rx ry : ℕ)
      → dx ≤ dy
      → AlongY err rx (suc ry)
      → ltb_ℤ (sub_ℕ 0 dy) (err +ℤ err) ≡ false
      → AlongY (err +ℤ pos dx) rx ry
  AlongY-flat err rx ry major i flat =
      let low = neg-ltb_false dy (err +ℤ err) flat in omega int_laws

  pub AlongY-right :
      (err : ℤ) (rx ry : ℕ)
      → dx ≤ dy
      → AlongY err rx (suc ry)
      → ltb_ℤ (sub_ℕ 0 dy) (err +ℤ err) ≡ true
      → (r : ℕ) × (rx ≡ suc r) × AlongY (err -ℤ pos dy +ℤ pos dx) r ry
  AlongY-right err zero ry major i right =
      let high = neg-ltb_true dy (err +ℤ err) right in absurd (omega int_laws)
  AlongY-right err (suc r) ry major i right =
      let high = neg-ltb_true dy (err +ℤ err) right in (r, refl, omega int_laws)
