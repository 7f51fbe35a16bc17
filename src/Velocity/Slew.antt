-- ===== src/Velocity/Slew.antt =====
-- What clipping and smoothing guarantee, from the order of the floats and the monotony of rounding.
use navigation.Prelude.{◌≡◌, refl, true, false, arith}
use mathlib.Core.Path.{subst}
use navigation.Float.{Float, IsOrdered, ◌⊕◌, ◌⊗◌, ◌≼◌, negate, nought, less}
use navigation.Velocity.{Velocity, Smoother, SmootherConfig, clip, approach, cut, smooth, positive}

module _ {F : Type 0} ⦃f : Float F⦄ where
  -- `x` lies within `lim` of `prev`.
  abbrev pub IsWithin : F → F → F → Type 0
  IsWithin lim prev x = (prev ⊕ negate lim ≼ x) × (x ≼ prev ⊕ lim)

  -- `-lim <= x <= lim`
  abbrev pub IsCapped : F → F → Type 0
  IsCapped lim x = (negate lim ≼ x) × (x ≼ lim)

  module _ (laws : IsOrdered F) where
    open laws use {
      le_refl, le_trans, le_total, ltb-eq-not-leb, add_mono, neg_antitone, neg_nought, mul_nonneg,
      lit_nonneg,
    }

    pub le_of_not_less : (x y : F) → less x y ≡ false → y ≼ x
    le_of_not_less x y h = ground (arith, ltb-eq-not-leb x y)

    pub le_of_less : (x y : F) → less x y ≡ true → x ≼ y
    le_of_less x y h = ground (arith, ltb-eq-not-leb x y, le_total x y)

    pub negate-le : (lim : F) → nought ≼ lim → negate lim ≼ lim
    negate-le lim h =
        le_trans _ _ _ (subst (λ z. negate lim ≼ z) neg_nought (neg_antitone nought lim h)) h

    -- A command is clipped to its cap.
    pub clip-IsCapped : (v lim : F) → nought ≼ lim → IsCapped lim (clip v lim)
    unfolding clip
    clip-IsCapped v lim h = ground (
      arith,
      negate-le lim h,
      le_refl lim,
      le_refl (negate lim),
      le_of_less v lim,
      le_of_less (negate lim) v,
      le_of_less (negate lim) lim,
      le_of_not_less (negate lim) lim,
      le_of_not_less (negate lim) v,
      le_of_not_less v lim,
    )

    pub nought-IsCapped : (lim : F) → nought ≼ lim → IsCapped lim nought
    nought-IsCapped lim h = (subst (λ z. negate lim ≼ z) neg_nought (neg_antitone nought lim h), h)

    cut-IsCapped : (step lim : F) → nought ≼ lim → IsCapped lim (cut step lim)
    cut-IsCapped step lim h = ground (
      arith,
      negate-le lim h,
      le_refl lim,
      le_refl (negate lim),
      le_of_not_less lim step,
      le_of_not_less step (negate lim),
    )

    -- A sum with a number that is capped.
    pub add-IsWithin : (prev lim d : F) → IsCapped lim d → IsWithin lim prev (prev ⊕ d)
    add-IsWithin prev lim d (low, high) =
        (add_mono _ _ _ _ (le_refl prev) low, add_mono _ _ _ _ (le_refl prev) high)

    pub approach-IsWithin :
        (prev target alpha rate dt : F)
        → nought ≼ rate ⊗ dt
        → IsWithin (rate ⊗ dt) prev (approach prev target alpha rate dt)
    unfolding approach
    approach-IsWithin prev target alpha rate dt h =
        add-IsWithin prev (rate ⊗ dt) _ (cut-IsCapped _ _ h)

    -- How far a smoothed command may lie from the one before it.
    pub record IsSlewed (c : SmootherConfig F) (dt : F) (prev next : Velocity F) : Type 0 where
      pub slew_x : IsWithin (c.lin_accel_max ⊗ positive dt) prev.vx next.vx
      pub slew_y : IsWithin (c.lin_accel_max ⊗ positive dt) prev.vy next.vy
      pub slew_wz : IsWithin (c.yaw_accel_max ⊗ positive dt) prev.wz next.wz

    pub record IsSlewable (c : SmootherConfig F) (dt : F) : Type 0 where
      pub linear : nought ≼ c.lin_accel_max ⊗ positive dt
      pub angular : nought ≼ c.yaw_accel_max ⊗ positive dt

    pub smooth-IsSlewed :
        (now : F) (v : Velocity F) (dt : F) (s : Smoother F)
        → IsSlewable s.cfg dt
        → IsSlewed s.cfg dt s.sent (smooth now v dt s).sent
    unfolding smooth
    smooth-IsSlewed now v dt s h = record {
      slew_x = approach-IsWithin s.sent.vx _ _ _ _ h.linear;
      slew_y = approach-IsWithin s.sent.vy _ _ _ _ h.linear;
      slew_wz = approach-IsWithin s.sent.wz _ _ _ _ h.angular;
    }

    positive-nonneg : (dt : F) → nought ≼ positive dt
    positive-nonneg dt = ground (arith, le_total dt nought, le_total nought dt, lit_nonneg 1 1000)

    -- Limits that are not negative allow some change in any time.
    pub slewable :
        (c : SmootherConfig F)
        → nought ≼ c.lin_accel_max
        → nought ≼ c.yaw_accel_max
        → (dt : F) → IsSlewable c dt
    slewable c h k dt = record {
      linear = mul_nonneg _ _ h (positive-nonneg dt);
      angular = mul_nonneg _ _ k (positive-nonneg dt);
    }

module _ {F : Type 0} ⦃f : Float F⦄ where
  pub smooth-cfg :
      (now : F) (v : Velocity F) (dt : F) (s : Smoother F) → (smooth now v dt s).cfg ≡ s.cfg
  unfolding smooth
  smooth-cfg now v dt s = refl
