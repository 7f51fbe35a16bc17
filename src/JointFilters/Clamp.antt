-- ===== src/JointFilters/Clamp.antt =====
-- The rate limit of the joint commands while the filtering layers are never released.
use navigation.Prelude.{◌≡◌, refl, true, false, Option, none, some, List, [], ◌∷◌, arith, ap}
use mathlib.Core.Path.{subst, sym}
use navigation.Float.{Float, IsOrdered, ◌⊖◌, ◌≼◌, negate, nought, unit, at_most}
use navigation.Velocity.Slew.{IsWithin, IsCapped, le_of_less, le_of_not_less, negate-le}
use navigation.Activation.{Posture, bound, clamp_step_delta}
use navigation.JointFilters.{
  JointSmoother, release_factor, filtered, clamped, blended, step_from, step, reset, commands,
}

module _ {F : Type 0} ⦃f : Float F⦄ (laws : IsOrdered F) where
  open laws use {le_refl, le_total, ltb-eq-not-leb, less_nought_unit}

  pub bound-IsCapped : (x d : F) → nought ≼ d → IsCapped d (bound x (negate d) d)
  unfolding bound
  bound-IsCapped x d h = ground (
    arith,
    negate-le laws d h,
    le_refl d,
    le_refl (negate d),
    le_of_not_less laws x (negate d),
    le_of_not_less laws d x,
    le_of_not_less laws d (negate d),
    le_of_less laws d x,
  )

  le_of_not_at_most : (x y : F) → at_most x y ≡ false → y ≼ x
  le_of_not_at_most x y h = ground (arith, le_total x y)

  unit-not-at_most-nought : at_most {F = F} unit nought ≡ false
  unit-not-at_most-nought = ground (arith, ltb-eq-not-leb nought unit, less_nought_unit)

module _ {J F : Type 0} ⦃f : Float F⦄ where
  -- What a step does once the smoother is reset.
  pub step_held :
      (raw : Posture J F) (dt : Option F) (held : Posture J F × Posture J F) (s : JointSmoother J F)
      → s.held ≡ some held
      → step raw dt s ≡ step_from raw dt held s
  unfolding step
  step_held raw dt held s eq =
      ap
        (λ o. elim o as (λ _. Posture J F × JointSmoother J F) [
          | none ↦ step_from raw dt (raw, raw) (reset raw s)
          | some h ↦ step_from raw dt h s
        ])
        eq

  -- Every joint of `x` lies within `d` of `prev`.
  abbrev pub IsNear : F → Posture J F → Posture J F → Type 0
  IsNear d prev x = (j : J) → IsWithin d (prev j) (x j)

  -- Each posture is near the one before it, the first one near `prev`.
  abbrev pub IsGentle : F → Posture J F → List (Posture J F) → Type 0
  IsGentle d prev [] = Unit
  IsGentle d prev (x ∷ xs) = IsNear d prev x × IsGentle d x xs

  module _ (laws : IsOrdered F) where
    open laws use {le_refl, add_mono}

    clamp_step_delta-IsNear :
        (prev desired : Posture J F) (d : F)
        → at_most d nought ≡ false
        → IsNear d prev (clamp_step_delta prev desired d)
    unfolding clamp_step_delta
    clamp_step_delta-IsNear prev desired d h j =
        let (lo, hi) =
          bound-IsCapped laws (desired j ⊖ prev j) d (le_of_not_at_most laws d nought h) in
        rw h (
          add_mono (prev j) (prev j) _ _ (le_refl (prev j)) lo,
          add_mono (prev j) (prev j) _ _ (le_refl (prev j)) hi,
        )

    clamped-IsNear :
        (prev target : Posture J F) (d : F)
        → at_most d nought ≡ false
        → IsNear d prev (clamped nought prev target d)
    unfolding clamped
    clamped-IsNear prev target d h =
        rw (unit-not-at_most-nought laws, le_refl nought) (clamp_step_delta-IsNear prev target d h)

    never_released :
        (s : JointSmoother J F) → at_most s.release_s nought ≡ true → release_factor s ≡ nought
    unfolding release_factor
    never_released s h = ground arith

    step_from-IsNear :
        (raw : Posture J F) (dt : Option F) (measured prev : Posture J F) (s : JointSmoother J F)
        → at_most s.release_s nought ≡ true
        → at_most s.clamp_delta nought ≡ false
        → IsNear s.clamp_delta prev (step_from raw dt (measured, prev) s).0
    unfolding step_from
    step_from-IsNear raw dt measured prev s h k =
        subst
          (λ r.
            IsNear s.clamp_delta prev
              (clamped r prev (filtered r (blended raw measured s) s.filter).0 s.clamp_delta))
          (sym (never_released s h))
          (clamped-IsNear prev (filtered nought (blended raw measured s) s.filter).0 s.clamp_delta
            k)

    commands-IsGentle :
        (targets : List (Posture J F × Option F)) (s : JointSmoother J F)
        (measured prev : Posture J F)
        → s.held ≡ some (measured, prev)
        → at_most s.release_s nought ≡ true
        → at_most s.clamp_delta nought ≡ false
        → IsGentle s.clamp_delta prev (commands targets s).0
    unfolding commands step_from
    commands-IsGentle [] s measured prev eq h k = tt
    commands-IsGentle ((raw, dt) ∷ rest) s measured prev eq h k =
        subst (λ out. IsGentle s.clamp_delta prev (out.0 ∷ (commands rest out.1).0))
          (sym (step_held raw dt (measured, prev) s eq))
          (
            step_from-IsNear raw dt measured prev s h k,
            commands-IsGentle rest (step_from raw dt (measured, prev) s).1 measured _ refl h k,
          )

    -- Once the smoother is reset at the measured posture, and while `release_s` is at most 0 and
    -- `clamp_delta` above 0: whatever targets the policy gives, whatever the filter, the blend and the
    -- time steps, no joint's command is more than `clamp_delta` from its command before, the first one
    -- no more than that from its measured position.
    pub reset-IsGentle :
        (measured : Posture J F) (targets : List (Posture J F × Option F)) (s : JointSmoother J F)
        → at_most s.release_s nought ≡ true
        → at_most s.clamp_delta nought ≡ false
        → IsGentle s.clamp_delta measured (commands targets (reset measured s)).0
    unfolding reset
    reset-IsGentle measured targets s h k =
        commands-IsGentle targets (reset measured s) measured measured refl h k
