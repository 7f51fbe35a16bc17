-- ===== src/Float/Defs.antt =====
-- The operations on floats that the modelled code uses, and the laws that proofs may assume.
use navigation.Prelude.{ℕ, Bool, true, not, ◌≡◌, ◌⊎◌, ℤ, pos, if◌then◌else◌}

pub record Float (F : Type 0) : Type 0 where
  -- `float(k)`, and the literal that is written n / d
  pub of_int : ℤ → F
  pub lit : ℕ → ℕ → F
  pub add : F → F → F
  pub sub : F → F → F
  pub mul : F → F → F
  pub div : F → F → F
  pub neg : F → F
  pub leb : F → F → Bool
  pub ltb : F → F → Bool
  -- `int(x)`, which cuts towards zero, and `round(x)`
  pub trunc : F → ℤ
  pub round : F → ℤ
  pub sqrt : F → F
  pub hypot : F → F → F

module _ {F : Type 0} ⦃f : Float F⦄ where
  infixl 65 ◌⊕◌ ◌⊖◌
  infixl 70 ◌⊗◌ ◌⊘◌
  infix 50 ◌≼◌
  abbrev pub ◌⊕◌ : F → F → F
  ◌⊕◌ = f.add

  abbrev pub ◌⊖◌ : F → F → F
  ◌⊖◌ = f.sub

  abbrev pub ◌⊗◌ : F → F → F
  ◌⊗◌ = f.mul

  abbrev pub ◌⊘◌ : F → F → F
  ◌⊘◌ = f.div

  abbrev pub negate : F → F
  negate = f.neg

  abbrev pub ◌≼◌ : F → F → Type 0
  x ≼ y = f.leb x y ≡ true

  abbrev pub at_most : F → F → Bool
  at_most = f.leb

  abbrev pub less : F → F → Bool
  less = f.ltb

  abbrev pub nought : F
  nought = f.of_int (pos 0)

  abbrev pub unit : F
  unit = f.of_int (pos 1)

  -- Python's `max(x, y)` and `min(x, y)`: the first of two equal arguments.
  abbrev pub fmax : F → F → F
  fmax x y = if f.ltb x y then y else x

  abbrev pub fmin : F → F → F
  fmin x y = if f.ltb y x then y else x

-- What IEEE arithmetic gives on numbers, rounding included: the order is total, and rounding is
-- monotone, so sums and negation are too.
pub record IsOrdered (F : Type 0) ⦃f : Float F⦄ : Type 0 where
  pub le_refl : (x : F) → x ≼ x
  pub le_trans : (x y z : F) → x ≼ y → y ≼ z → x ≼ z
  pub le_total : (x y : F) → (x ≼ y) ⊎ (y ≼ x)
  pub ltb-eq-not-leb : (x y : F) → less x y ≡ not (at_most y x)
  pub add_mono : (a b c d : F) → a ≼ b → c ≼ d → a ⊕ c ≼ b ⊕ d
  pub neg_antitone : (x y : F) → x ≼ y → negate y ≼ negate x
  pub neg_nought : f.neg (f.of_int (pos 0)) ≡ f.of_int (pos 0)
  pub mul_nonneg :
      (x y : F) → f.of_int (pos 0) ≼ x → f.of_int (pos 0) ≼ y → f.of_int (pos 0) ≼ x ⊗ y
  pub lit_nonneg : (n d : ℕ) → f.of_int (pos 0) ≼ f.lit n d
  pub less_nought_unit : less (f.of_int (pos 0)) (f.of_int (pos 1)) ≡ true
  pub add_nought : (x : F) → f.add x (f.of_int (pos 0)) ≡ x
  pub nought_mul : (x : F) → f.mul (f.of_int (pos 0)) x ≡ f.of_int (pos 0)
