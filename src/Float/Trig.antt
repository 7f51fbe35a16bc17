-- ===== src/Float/Trig.antt =====
-- The trigonometric functions that the code calls, and `math.floor`.
use navigation.Prelude.{ℤ}

pub record Trig (F : Type 0) : Type 0 where
  pub sin : F → F
  pub cos : F → F
  pub atan2 : F → F → F
  pub floor : F → ℤ
