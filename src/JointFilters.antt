-- ===== src/JointFilters.antt =====
-- amo/joint_filters.py: the running filters and `JointSmoother`. The time step of a call of `step` is an
-- argument that may be absent.
pub mod Clamp
pub mod Release
mod Tests
use package.navigation.Prelude.{
  ℕ, Bool, true, false, ◌&&◌, ◌||◌, Option, none, some, List, [], ◌∷◌, if◌then◌else◌,
}
unfoldable use package.navigation.Prelude.Text.{lower}
use package.navigation.Prelude.Text.{codes, same_text}
use package.navigation.Float.{Float, ◌⊕◌, ◌⊖◌, ◌⊗◌, ◌⊘◌, at_most, less, nought, unit}
use package.navigation.Activation.{
  Posture, smoothstep, gain_ramp_scale, mix, blend_pose, clamp_step_delta,
}

pub record EwmaFilter (J F : Type 0) : Type 0 where
  pub tau : F
  pub dt : F
  pub y : Option (Posture J F)

pub record CriticallyDampedFilter (J F : Type 0) : Type 0 where
  pub wn : F
  pub dt : F
  -- `_y` and `_yd`, which `reset` sets together
  pub y : Option (Posture J F × Posture J F)

pub data Filter (J F : Type 0) : Type 0 where
  ewma : EwmaFilter J F → Filter J F
  critdamp : CriticallyDampedFilter J F → Filter J F

-- The result of `make_filter`: `ValueError`, or a filter or `None`.
pub data Made (J F : Type 0) : Type 0 where
  unknown_kind : Made J F
  made : Option (Filter J F) → Made J F

pub record JointSmoother (J F : Type 0) : Type 0 where
  pub dt : F
  pub blend_s : F
  pub gain_ramp_s : F
  pub kp_scale_start : F
  pub kd_scale_start : F
  pub clamp_delta : F
  pub release_s : F
  pub release_ramp_s : F
  pub filter : Option (Filter J F)
  -- `_measured_q` and `_prev_cmd`, which `reset` sets together
  pub held : Option (Posture J F × Posture J F)
  pub t : F

module _ {J F : Type 0} ⦃f : Float F⦄ where
  -- The property `alpha`.
  unfoldable pub alpha : EwmaFilter J F → F
  alpha e = if at_most e.tau nought then unit else e.dt ⊘ (e.tau ⊕ e.dt)

  unfoldable pub step_ewma : Posture J F → EwmaFilter J F → Posture J F × EwmaFilter J F
  unfolding alpha
  step_ewma target e =
      let before : Posture J F = elim e.y [ none ↦ target | some y ↦ y ] in
      let after = mix (alpha e) before target in (after, record e { y = some after })

  unfoldable pub step_critdamp :
      Posture J F → CriticallyDampedFilter J F → Posture J F × CriticallyDampedFilter J F
  step_critdamp target c =
      let state : Posture J F × Posture J F = elim c.y [
        | none ↦ (target, λ j. nought)
        | some s ↦ s
      ] in
      let accel : Posture J F =
        λ j. c.wn ⊗ c.wn ⊗ (target j ⊖ state.0 j) ⊖ f.lit 2 1 ⊗ c.wn ⊗ state.1 j in
      let yd : Posture J F = λ j. state.1 j ⊕ accel j ⊗ c.dt in
      let y : Posture J F = λ j. state.0 j ⊕ yd j ⊗ c.dt in (y, record c { y = some (y, yd) })

  -- `reset` of the two filters, the second with no velocity given.
  unfoldable pub reset_filter : Posture J F → Filter J F → Filter J F
  reset_filter y0 (ewma e) = ewma (record e { y = some y0 })
  reset_filter y0 (critdamp c) = critdamp (record c { y = some (y0, λ j. nought) })

  unfoldable pub step_filter : Posture J F → Filter J F → Posture J F × Filter J F
  unfolding step_ewma step_critdamp
  step_filter target (ewma e) = let (y, e') = step_ewma target e in (y, ewma e')
  step_filter target (critdamp c) = let (y, c') = step_critdamp target c in (y, critdamp c')

  -- `kind` may be `None`.
  unfoldable pub make_filter : Option (List ℕ) → F → F → F → Made J F
  unfolding lower
  make_filter given dt tau wn =
      let kind = lower (elim given [ none ↦ codes "none" | some [] ↦ codes "none" | some k ↦ k ]) in
      if same_text kind (codes "none")
      then made none
      else if same_text kind (codes "ewma")
      then made (some (ewma (record { tau = tau; dt = dt; y = none })))
      else if same_text kind (codes "critdamp")
      then made (some (critdamp (record { wn = wn; dt = dt; y = none })))
      else unknown_kind

  unfoldable pub reset : Posture J F → JointSmoother J F → JointSmoother J F
  unfolding reset_filter
  reset measured_q s = record s {
    held = some (measured_q, measured_q);
    t = nought;
    filter = elim s.filter [ none ↦ none | some flt ↦ some (reset_filter measured_q flt) ];
  }

  unfoldable pub blending : JointSmoother J F → Bool
  blending s = less nought s.blend_s && less s.t s.blend_s

  unfoldable pub release_factor : JointSmoother J F → F
  release_factor s =
      if at_most s.release_s nought || less s.t s.release_s
      then nought
      else if at_most s.release_ramp_s nought
      then unit
      else smoothstep ((s.t ⊖ s.release_s) ⊘ s.release_ramp_s)

  unfoldable pub filtering : JointSmoother J F → Bool
  filtering s = less (release_factor s) unit

  unfoldable pub gain_scales : JointSmoother J F → F × F
  gain_scales s = (
    gain_ramp_scale s.t s.gain_ramp_s s.kp_scale_start,
    gain_ramp_scale s.t s.gain_ramp_s s.kd_scale_start,
  )

  -- Layer A.
  unfoldable pub blended : Posture J F → Posture J F → JointSmoother J F → Posture J F
  unfolding blending
  blended raw measured_q s = if blending s then blend_pose measured_q raw (s.t ⊘ s.blend_s) else raw

  -- Layer D.
  unfoldable pub filtered :
      F → Posture J F → Option (Filter J F) → Posture J F × Option (Filter J F)
  unfolding step_filter
  filtered r target none = (target, none)
  filtered r target (some flt) =
      if less r unit
      then (let (y, flt') = step_filter target flt in
          (if at_most r nought then y else mix r y target, some flt'))
      else (target, some flt)

  -- Layer C.
  unfoldable pub clamped : F → Posture J F → Posture J F → F → Posture J F
  clamped r prev target clamp_delta =
      if at_most unit r
      then target
      else let c = clamp_step_delta prev target clamp_delta in
        if at_most r nought then c else mix r c target

  -- A step from the postures that are held.
  unfoldable pub step_from :
      Posture J F
      → Option F
      → Posture J F × Posture J F
      → JointSmoother J F
      → Posture J F × JointSmoother J F
  unfolding blended filtered clamped release_factor
  step_from raw dt (measured_q, prev_cmd) s =
      let step_dt : F = elim dt [ none ↦ s.dt | some d ↦ d ] in
      let r = release_factor s in
      let (target, filter') = filtered r (blended raw measured_q s) s.filter in
      let cmd = clamped r prev_cmd target s.clamp_delta in
      (cmd, record s { held = some (measured_q, cmd); filter = filter'; t = s.t ⊕ step_dt })

  unfoldable pub step : Posture J F → Option F → JointSmoother J F → Posture J F × JointSmoother J F
  unfolding step_from reset
  step raw dt s = elim s.held [
    | none ↦ step_from raw dt (raw, raw) (reset raw s)
    | some held ↦ step_from raw dt held s
  ]

  -- The commands of a run, from a list of targets and time steps.
  unfoldable pub commands :
      List (Posture J F × Option F) → JointSmoother J F → List (Posture J F) × JointSmoother J F
  unfolding step
  commands [] s = ([], s)
  commands ((raw, dt) ∷ rest) s =
      let (cmd, s') = step raw dt s in let (cmds, s'') = commands rest s' in (cmd ∷ cmds, s'')
