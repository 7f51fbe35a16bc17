-- ===== src/JointFilters/Release.antt =====
-- The joint commands once the filtering layers are released and the blend is over.
use navigation.Prelude.{
  ◌≡◌, refl, true, false, Option, none, some, List, [], ◌∷◌, arith, All, map, ap, ◌∙◌,
}
use mathlib.Core.Path.{subst}
use navigation.Float.{Float, IsOrdered, ◌⊕◌, ◌≼◌, nought, unit, less, at_most}
use navigation.Activation.{Posture}
use navigation.JointFilters.Clamp.{step_held}
use navigation.JointFilters.{
  Filter, JointSmoother, blending, release_factor, filtered, clamped, blended, step_from, commands,
}

module _ {F : Type 0} ⦃f : Float F⦄ (laws : IsOrdered F) where
  open laws use {le_refl, le_trans, ltb-eq-not-leb, add_mono, add_nought}

  not_less : (x y : F) → y ≼ x → less x y ≡ false
  not_less x y h = ground (arith, ltb-eq-not-leb x y)

  le-add : (x t d : F) → x ≼ t → nought ≼ d → x ≼ t ⊕ d
  le-add x t d h k =
      le_trans x t (t ⊕ d) h
        (subst (λ z. z ≼ t ⊕ d) (add_nought t) (add_mono t t nought d (le_refl t) k))

module _ {J F : Type 0} ⦃f : Float F⦄ where
  -- The time step of a tick is not negative.
  abbrev pub IsForward : F → Posture J F × Option F → Type 0
  IsForward dt (raw, none) = nought ≼ dt
  IsForward dt (raw, some d) = nought ≼ d

  -- The blend is over, and the layers are released at once at `release_s`, which is past.
  pub record IsReleased (s : JointSmoother J F) : Type 0 where
    pub enabled : at_most s.release_s nought ≡ false
    pub at_once : at_most s.release_ramp_s nought ≡ true
    pub past_release : s.release_s ≼ s.t
    pub past_blend : s.blend_s ≼ s.t

  module _ (laws : IsOrdered F) where
    open laws use {le_refl}

    not_blending : (s : JointSmoother J F) → s.blend_s ≼ s.t → blending s ≡ false
    unfolding blending
    not_blending s h = ground (arith, not_less laws s.t s.blend_s h)

    release_factor-unit : (s : JointSmoother J F) → IsReleased s → release_factor s ≡ unit
    unfolding release_factor
    release_factor-unit s r =
        rw (r.enabled, not_less laws s.t s.release_s r.past_release, r.at_once) refl

    filtered-unit :
        (target : Posture J F) (flt : Option (Filter J F))
        → filtered unit target flt ≡ (target, flt)
    unfolding filtered
    filtered-unit target none = refl
    filtered-unit target (some flt) = rw (not_less laws unit unit (le_refl unit)) refl

    clamped-unit : (prev target : Posture J F) (d : F) → clamped unit prev target d ≡ target
    unfolding clamped
    clamped-unit prev target d = rw (le_refl unit) refl

    step_from_released :
        (raw : Posture J F) (dt : Option F) (held : Posture J F × Posture J F)
        (s : JointSmoother J F)
        → IsReleased s
        → (step_from raw dt held s).0 ≡ raw
    unfolding step_from blended
    step_from_released raw dt (m, p) s r =
        rw (release_factor-unit s r, not_blending s r.past_blend, filtered-unit raw s.filter)
          (clamped-unit p raw s.clamp_delta)

    step_from-IsReleased :
        (raw : Posture J F) (dt : Option F) (held : Posture J F × Posture J F)
        (s : JointSmoother J F)
        → IsReleased s
        → IsForward s.dt (raw, dt)
        → IsReleased (step_from raw dt held s).1
    unfolding step_from
    step_from-IsReleased raw none held s r h = record {
      enabled = r.enabled;
      at_once = r.at_once;
      past_release = le-add laws s.release_s s.t s.dt r.past_release h;
      past_blend = le-add laws s.blend_s s.t s.dt r.past_blend h;
    }
    step_from-IsReleased raw (some d) held s r h = record {
      enabled = r.enabled;
      at_once = r.at_once;
      past_release = le-add laws s.release_s s.t d r.past_release h;
      past_blend = le-add laws s.blend_s s.t d r.past_blend h;
    }

    -- Once the blend is over and the layers are released, with no ramp, and as long as time does not run
    -- backwards, the commands are the policy's targets themselves: neither filter nor clamp is left.
    pub commands-Pass :
        (targets : List (Posture J F × Option F)) (s : JointSmoother J F)
        (held : Posture J F × Posture J F)
        → s.held ≡ some held
        → IsReleased s
        → All (IsForward s.dt) targets
        → (commands targets s).0 ≡ map (λ target. target.0) targets
    unfolding commands step_from
    commands-Pass [] s held eq r h = refl
    commands-Pass ((raw, dt) ∷ rest) s (m, p) eq r h =
        ap (λ out. out.0 ∷ (commands rest out.1).0) (step_held raw dt (m, p) s eq)
        ∙ ap (λ cmd. cmd ∷ (commands rest (step_from raw dt (m, p) s).1).0)
            (step_from_released raw dt (m, p) s r)
        ∙ ap (λ cmds. raw ∷ cmds)
            (commands-Pass rest (step_from raw dt (m, p) s).1 _ refl
              (step_from-IsReleased raw dt (m, p) s r h.0) h.1)
