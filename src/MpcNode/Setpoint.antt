-- ===== src/MpcNode/Setpoint.antt =====
-- The setpoint that `_solve_cb` of mpc_node.py publishes: the lookahead on the predicted trajectory, and
-- the low-pass filter.
use navigation.Prelude.{Option, none, some, List, [], ◌∷◌, ◌&&◌, if◌then◌else◌}
use navigation.Float.{Float, ◌⊕◌, ◌⊖◌, ◌⊗◌, at_most, less, nought, unit, fmax, fmin}
use navigation.Float.Trig.{Trig}
use navigation.Activation.{bound}
use navigation.MpcNode.Plane.{Point, plus, minus, scaled, shrunk, norm, distance}

-- A position of the plane, and a yaw.
abbrev pub Pose2d : Type 0 → Type 0
Pose2d F = Point F × F

pub record SetpointParams (F : Type 0) : Type 0 where
  pub lookahead_dist : F
  pub alpha : F
  pub max_step : F
  pub reset_dist : F

module _ {F : Type 0} ⦃f : Float F⦄ where
  abbrev pub last_or : Point F → List (Point F) → Point F
  last_or a [] = a
  last_or a (b ∷ bs) = last_or b bs

  -- The first of some rows that is far enough from the robot.
  abbrev pub first_far : F → Point F → List (Pose2d F) → Option (Pose2d F)
  first_far reach robot [] = none
  first_far reach robot (row ∷ rows) =
      let rest = first_far reach robot rows in
      if at_most reach (distance row.0 robot) then some row else rest

  abbrev pub tail : List (Pose2d F) → List (Pose2d F)
  tail [] = []
  tail (row ∷ rows) = rows

  abbrev pub reach_to : SetpointParams F → Point F → Point F → F
  reach_to p robot end = fmin p.lookahead_dist (fmax (f.lit 3 10) (distance end robot ⊗ f.lit 5 10))

  -- The unfiltered setpoint: from the rows after the first, or else the path's end with the robot's yaw.
  unfoldable pub lookahead : SetpointParams F → Pose2d F → Point F → List (Pose2d F) → Pose2d F
  lookahead p robot end rows = elim (first_far (reach_to p robot.0 end) robot.0 (tail rows)) [
    | none ↦ (end, robot.1)
    | some row ↦ row
  ]

  -- The next position, cut to the largest step from the filtered one.
  unfoldable pub step_cut : F → Point F → Point F → Point F
  step_cut max_step held next =
      let jump = minus next held in
      if less nought max_step && less max_step (norm jump)
      then plus held (scaled max_step (shrunk (norm jump ⊕ f.lit 1 1000000000) jump))
      else next

module _ {F : Type 0} ⦃f : Float F⦄ ⦃t : Trig F⦄ where
  abbrev pub toward : F → F → F → F
  toward alpha held next = held ⊕ alpha ⊗ t.atan2 (t.sin (next ⊖ held)) (t.cos (next ⊖ held))

  -- The filtered setpoint, which the node keeps and publishes.
  unfoldable pub filtered_setpoint : SetpointParams F → Option (Pose2d F) → Pose2d F → Pose2d F
  unfolding bound
  filtered_setpoint p none next = next
  filtered_setpoint p (some held) next =
      let alpha = bound p.alpha nought unit in
      let xy = step_cut p.max_step held.0 next.0 in
      (plus (scaled (unit ⊖ alpha) held.0) (scaled alpha xy), toward alpha held.1 next.1)
