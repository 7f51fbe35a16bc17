-- ===== src/JointFilters/Tests.antt =====
-- Runs of the joint smoother, on two joints.
use navigation.Prelude.{
  ◌≡◌, refl, Bool, true, Option, none, some, List, [], ◌∷◌, pos, ◌-ℤ◌, ◌+ℤ◌, map,
}
use navigation.Float.{Millis, millis, milli, Millis-IsOrdered}
unfoldable use navigation.Prelude.Text.{lower}
use navigation.Prelude.Text.{codes}
use navigation.Activation.{Posture, bound, smoothstep, blend_pose, clamp_step_delta}
use navigation.JointFilters.{
  critdamp, JointSmoother, unknown_kind, make_filter, reset, commands, step, step_from, blended,
  blending, filtered, clamped, release_factor, step_filter, step_critdamp, reset_filter,
}
use navigation.JointFilters.Clamp.{IsGentle, reset-IsGentle}
use navigation.JointFilters.Release.{commands-Pass}

abbrev both : Millis → Posture Bool Millis
both x j = x

abbrev smoother : JointSmoother Bool Millis
smoother = record {
  dt = milli (pos 20);
  blend_s = milli (pos 40);
  gain_ramp_s = milli (pos 2000);
  kp_scale_start = milli (pos 150);
  kd_scale_start = milli (pos 500);
  clamp_delta = milli (pos 50);
  release_s = milli (pos 0);
  release_ramp_s = milli (pos 0);
  filter = some (critdamp (record { wn = milli (pos 12000); dt = milli (pos 20); y = none }));
  held = none;
  t = milli (pos 0);
}

abbrev targets : List (Posture Bool Millis × Option Millis)
targets =
    (both (milli (pos 1000)), none)
    ∷ (both (milli (pos 1000)), some (milli (pos 25)))
    ∷ (both (milli (pos 1000)), none)
    ∷ []

-- A sudden target: the blend, the filter and the clamp hold the command back.
commands_run :
    map (λ cmd. cmd true) (commands targets (reset (both (milli (pos 0))) smoother)).0
    ≡ milli (pos 0) ∷ milli (pos 28) ∷ milli (pos 78) ∷ []
unfolding commands reset reset_filter step step_from blended blending blend_pose smoothstep bound
    filtered step_filter step_critdamp clamped clamp_step_delta release_factor ◌-ℤ◌ ◌+ℤ◌
commands_run = refl

unknown_is_refused :
    make_filter {J = Bool}
      (some (codes "Kalman"))
      (milli (pos 20))
      (milli (pos 80))
      (milli (pos 12))
    ≡ unknown_kind
unfolding make_filter lower
unknown_is_refused = refl

reset-IsGentle_example :
    IsGentle
      (milli (pos 50))
      (both (milli (pos 0)))
      (commands targets (reset (both (milli (pos 0))) smoother)).0
reset-IsGentle_example =
    reset-IsGentle Millis-IsOrdered (both (milli (pos 0))) targets smoother refl refl

abbrev released : JointSmoother Bool Millis
released = record smoother {
  release_s = milli (pos 3000);
  t = milli (pos 6000);
  held = some (both (milli (pos 0)), both (milli (pos 300)));
}

commands-Pass_example : (commands targets released).0 ≡ map (λ target. target.0) targets
commands-Pass_example =
    commands-Pass Millis-IsOrdered targets released (both (milli (pos 0)), both (milli (pos 300)))
      refl (record { enabled = refl; at_once = refl; past_release = refl; past_blend = refl })
      (refl, (refl, (refl, tt)))
