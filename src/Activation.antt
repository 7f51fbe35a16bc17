-- ===== src/Activation.antt =====
-- amo/activation_utils.py: the ramps and the blend of the activation, and the clamp of a step. A posture
-- is a function of the joint; the casts between single and double precision are left out.
use package.navigation.Prelude.{if◌then◌else◌}
use package.navigation.Float.{Float, ◌⊕◌, ◌⊖◌, ◌⊗◌, ◌⊘◌, at_most, nought, unit, negate, fmax, fmin}

-- A vector of joint positions.
abbrev pub Posture : Type 0 → Type 0 → Type 0
Posture J F = J → F

module _ {F : Type 0} ⦃f : Float F⦄ where
  -- `np.clip`
  unfoldable pub bound : F → F → F → F
  bound x lo hi = fmin (fmax x lo) hi

  unfoldable pub smoothstep : F → F
  unfolding bound
  smoothstep alpha = let a = bound alpha nought unit in a ⊗ a ⊗ (f.lit 3 1 ⊖ f.lit 2 1 ⊗ a)

  unfoldable pub gain_ramp_scale : F → F → F → F
  gain_ramp_scale elapsed_s ramp_s scale_start =
      if at_most ramp_s nought
      then unit
      else let g = smoothstep (elapsed_s ⊘ ramp_s) in scale_start ⊕ (unit ⊖ scale_start) ⊗ g

  unfoldable pub command_ramp_factor : F → F → F
  command_ramp_factor elapsed_s ramp_s =
      if at_most ramp_s nought then unit else smoothstep (elapsed_s ⊘ ramp_s)

module _ {F J : Type 0} ⦃f : Float F⦄ where
  -- `(1 - s) * from + s * to`
  abbrev pub mix : F → Posture J F → Posture J F → Posture J F
  mix s from to j = (unit ⊖ s) ⊗ from j ⊕ s ⊗ to j

  unfoldable pub blend_pose : Posture J F → Posture J F → F → Posture J F
  blend_pose start target alpha = mix (smoothstep alpha) start target

  unfoldable pub clamp_step_delta : Posture J F → Posture J F → F → Posture J F
  unfolding bound
  clamp_step_delta prev desired max_delta = if at_most max_delta nought then desired else λ j.
      prev j ⊕ bound (desired j ⊖ prev j) (negate max_delta) max_delta
