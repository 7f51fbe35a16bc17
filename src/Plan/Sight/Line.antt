-- ===== src/Plan/Sight/Line.antt =====
-- Lines of neighbouring cells, and steps towards a target.
use navigation.Prelude.{
  ℕ, suc, ◌≡◌, refl, ◌⊎◌, inl, inr, Bool, true, false, Option, none, some, List, [], ◌∷◌, ℤ, pos,
  negsuc, pos_part, neg_part, ◌+ℤ◌, ◌≤ℤ◌, ltb_ℤ, eqb_ℤ, if◌then◌else◌, int_laws, ap, arith,
  Bool-cases, eqb_ℤ→≡, ltb_ℤ→<, ltb_ℤ_false, Bool-cases,
}
use mathlib.Core.Path.{subst}
use navigation.Grid.{Cell}
use navigation.AStar.Moves.{IsNear}

-- `c` lies between `a` and `b`.
abbrev pub Between : ℤ → ℤ → ℤ → Type 0
Between a b c = (a ≤ℤ c) × (c ≤ℤ b) ⊎ (b ≤ℤ c) × (c ≤ℤ a)

-- A line of free cells from `a` to `b`, each a neighbour of the one before it.
abbrev pub FreeLine : (Cell → Bool) → Cell → Cell → List Cell → Type 0
FreeLine free a b [] = ⊥
FreeLine free a b (c ∷ []) = (a ≡ c) × (b ≡ c) × (free c ≡ true)
FreeLine free a b (c ∷ d ∷ cs) = (a ≡ c) × (free c ≡ true) × IsNear c d × FreeLine free d b (d ∷ cs)

-- What the answer says of the way from `a` to `b`.
abbrev pub Sees : (Cell → Bool) → Cell → Cell → Option Bool → Type 0
Sees free a b none = ⊥
Sees free a b (some true) = (cs : List Cell) × FreeLine free a b cs
Sees free a b (some false) =
    (c : Cell) × (free c ≡ false) × Between a.0 b.0 c.0 × Between a.1 b.1 c.1

-- `r` steps of `s` lead from `x` to `x1`.
abbrev pub Toward : ℤ → ℤ → ℕ → ℤ → Type 0
Toward s x r x1 = (s ≡ pos 1) × (x +ℤ pos r ≡ x1) ⊎ (s ≡ negsuc 0) × (x1 +ℤ pos r ≡ x)

pub Toward-step : (s x : ℤ) (r : ℕ) (x1 : ℤ) → Toward s x (suc r) x1 → Toward s (x +ℤ s) r x1
Toward-step s x r x1 (inl (e, t)) =
    inl (e, omega (int_laws, ap pos_part e, ap neg_part e, ap pos_part t, ap neg_part t))
Toward-step s x r x1 (inr (e, t)) =
    inr (e, omega (int_laws, ap pos_part e, ap neg_part e, ap pos_part t, ap neg_part t))

pub Toward-zero : (s x x1 : ℤ) → Toward s x 0 x1 → x ≡ x1
Toward-zero s x x1 (inl (e, t)) = omega (int_laws, ap pos_part t, ap neg_part t)
Toward-zero s x x1 (inr (e, t)) = omega (int_laws, ap pos_part t, ap neg_part t)

pub Toward-ne : (s x : ℤ) (r : ℕ) (x1 : ℤ) → Toward s x (suc r) x1 → eqb_ℤ x x1 ≡ false
Toward-ne s x r x1 t = elim (Bool-cases (eqb_ℤ x x1)) [
  | inr e ↦ e
  | inl e ↦ absurd (apart (eqb_ℤ→≡ x x1 e) t)
]
  where
    apart : x ≡ x1 → Toward s x (suc r) x1 → ⊥
    apart e (inl (d, t)) =
        omega (int_laws, ap pos_part e, ap neg_part e, ap pos_part t, ap neg_part t)
    apart e (inr (d, t)) =
        omega (int_laws, ap pos_part e, ap neg_part e, ap pos_part t, ap neg_part t)

-- The first step stays near, and what lies between the rest lies between the whole.
pub Toward-Between :
    (s x : ℤ) (r : ℕ) (x1 c : ℤ) → Toward s x (suc r) x1 → Between (x +ℤ s) x1 c → Between x x1 c
Toward-Between s x r x1 c (inl (e, t)) b =
    omega (int_laws, ap pos_part e, ap neg_part e, ap pos_part t, ap neg_part t)
Toward-Between s x r x1 c (inr (e, t)) b =
    omega (int_laws, ap pos_part e, ap neg_part e, ap pos_part t, ap neg_part t)

pub Between-self : (a b : ℤ) → Between a b a
Between-self a b = elim (Bool-cases (ltb_ℤ a b)) [
  | inl e ↦ inl (omega arith, omega (arith, ltb_ℤ→< a b e))
  | inr e ↦ inr (omega (arith, ltb_ℤ_false a b e), omega arith)
]

-- A step to a neighbour on the way.
pub Sees-step :
    (free : Cell → Bool) (a d b : Cell) (r : Option Bool)
    → free a ≡ true
    → IsNear a d
    → ((c : ℤ) → Between d.0 b.0 c → Between a.0 b.0 c)
    → ((c : ℤ) → Between d.1 b.1 c → Between a.1 b.1 c)
    → Sees free d b r
    → Sees free a b r
Sees-step free a d b none f n h k s = s
Sees-step free a d b (some false) f n h k (c, blocked, i, j) = (c, blocked, h c.0 i, k c.1 j)
Sees-step free a d b (some true) f n h k ([], line) = absurd line
Sees-step free a d b (some true) f n h k (e ∷ [], line) =
    (a ∷ e ∷ [], (refl, f, subst (IsNear a) line.0 n, (refl, line.1, line.2)))
Sees-step free a d b (some true) f n h k (e ∷ g ∷ cs, line) =
    (a ∷ e ∷ g ∷ cs, (refl, f, subst (IsNear a) line.0 n, (refl, line.1, line.2, line.3)))

Toward-near :
    (s x : ℤ) (r : ℕ) (x1 : ℤ) → Toward s x r x1 → (x +ℤ s ≤ℤ x +ℤ pos 1) × (x ≤ℤ x +ℤ s +ℤ pos 1)
Toward-near s x r x1 (inl (e, t)) = omega (int_laws, ap pos_part e, ap neg_part e)
Toward-near s x r x1 (inr (e, t)) = omega (int_laws, ap pos_part e, ap neg_part e)

pub eqb_self : (a : ℤ) → eqb_ℤ a a ≡ true
eqb_self a = ground arith

-- A coordinate after a step that is taken if `moves`, towards a target `r` steps away.
abbrev pub go : Bool → ℤ → ℤ → ℤ
go moves x s = if moves then x +ℤ s else x

pub near_step :
    (moves : Bool) (s x : ℤ) (r : ℕ) (x1 : ℤ)
    → Toward s x r x1
    → (go moves x s ≤ℤ x +ℤ pos 1) × (x ≤ℤ go moves x s +ℤ pos 1)
near_step true s x r x1 t = Toward-near s x r x1 t
near_step false s x r x1 t = omega int_laws
