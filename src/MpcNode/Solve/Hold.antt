-- ===== src/MpcNode/Solve/Hold.antt =====
-- What the node publishes while its solves fail: the soft hold, with the blend that comes after it.
use navigation.Prelude.{
  ℕ, suc, ◌≡◌, refl, sym, ap, ◌∙◌, ◌⊎◌, inl, inr, Bool, true, false, not, ◌&&◌, Option, none, some,
  List, [], ◌∷◌, leb, if◌then◌else◌, if-split, option-split, arith,
}
use mathlib.Core.Path.{subst}
use navigation.Float.{Float, ◌⊖◌}
use navigation.Float.Trig.{Trig}
use navigation.MpcNode.Plane.{distance, wrap_angle}
use navigation.MpcNode.Command.{
  Command, Hold, halt, soft_hold, approach_weight, approach_blend, blended_turn,
}
use navigation.MpcNode.Command.Bounds.{failing, faded, soft_hold-failing}
use navigation.MpcNode.Setpoint.{Pose2d}
use navigation.MpcNode.Smoothing.{Spot, Trail}
use navigation.MpcNode.Node.{
  NavState, idle, navigating, aligning, goal_reached, security, stopped, Params, Pose, Node,
}
use navigation.MpcNode.Solve.Drive.{Solution, Tracker, Out, drive_command, publish_solution}
use navigation.MpcNode.Solve.Gate.{commands_of}

state-split :
    {B : Type 0} (P : B → Type 0) (s : NavState) (x y : B)
    → (s ≡ navigating → P x)
    → P y
    → P (elim s as (λ _. B) [ navigating ↦ x | _ ↦ y ])
state-split P navigating x y h k = h refl
state-split P idle x y h k = k
state-split P aligning x y h k = k
state-split P goal_reached x y h k = k
state-split P security x y h k = k
state-split P stopped x y h k = k

none-some : {A : Type 0} {a : A} → none ≡ some a → ⊥
none-some e = ground (arith, e)

and-parts : (a b : Bool) → (not a && b) ≡ true → (a ≡ false) × (b ≡ true)
and-parts a b h = (ground arith, ground arith)

module _ {F T : Type 0} ⦃f : Float F⦄ ⦃t : Trig F⦄ (k : Tracker F T) (p : Params F) where
  -- The goal's heading is blended into a command: the node navigates in tracking mode to a goal whose
  -- heading counts, and is so near that this heading has a weight.
  abbrev pub IsBlend : Pose2d F → Node F T → Command F → Command F → Type 0
  IsBlend robot n u c =
      (goal : Pose2d F) × (beta : F) × (n.goal ≡ some goal)
      × (n.nav_state ≡ navigating)
      × (p.contouring ≡ false)
      × (p.require_goal_heading ≡ true)
      × (approach_weight p.command (distance robot.0 goal.0) ≡ some beta)
      × (c ≡ record u { wz = blended_turn p.command beta (wrap_angle (goal.1 ⊖ robot.1)) u.wz })

  -- A command as it is, or with the heading blended in.
  abbrev pub IsSent : Pose2d F → Node F T → Command F → Command F → Type 0
  IsSent robot n u c = (c ≡ u) ⊎ IsBlend robot n u c

  drive_command-IsSent :
      (robot : Pose2d F) (s : Solution F) (n : Node F T)
      → IsSent robot n
          (soft_hold p.command (if s.success then s.u_first else none) n.hold).0
          (drive_command k p robot s n).0
  unfolding drive_command approach_blend
  drive_command-IsSent robot s n =
      let u = (soft_hold p.command (if s.success then s.u_first else none) n.hold).0 in
      option-split (IsSent robot n u) n.goal (λ _. inl refl)
        (λ goal eg.
          state-split (IsSent robot n u) n.nav_state _ u
            (λ es.
              if-split (IsSent robot n u) (not p.contouring && p.require_goal_heading)
                (λ e.
                  option-split (IsSent robot n u)
                    (approach_weight p.command (distance robot.0 goal.0)) (λ _. inl refl)
                    (λ beta eb.
                      let (tracking, heading) = and-parts p.contouring p.require_goal_heading e in
                      inr (goal, beta, eg, es, tracking, heading, eb, refl)))
                (λ _. inl refl))
            (inl refl))

  -- What a failed solve publishes and leaves.
  pub record IsHeldOn (pose : Pose F) (n : Node F T) (u : Command F) (hold : Hold F)
      (out : Node F T × List (Out F)) : Type 0 where
    pub sent : Command F
    pub only : commands_of out.1 ≡ sent ∷ []
    pub faded_or_blended : IsSent (pose.spot.0, pose.yaw) n u sent
    pub held : out.0.hold ≡ hold

  failed_drive :
      (m : ℕ) (u : Command F) (h : Hold F) (robot : Pose2d F) (s : Solution F) (n : Node F T)
      (sp : Option (Pose2d F))
      → n.hold ≡ failing p.command m (soft_hold p.command (some u) h).1
      → s.success ≡ false
      → let (c, n') = drive_command k p robot s (record n { setpoint = sp }) in
        IsSent robot n
          (if leb (suc m) p.command.soft_hold_cycles then faded p.command (suc m) u else halt)
          c
        × (n'.hold ≡ failing p.command (suc m) (soft_hold p.command (some u) h).1)
  unfolding drive_command failing
  failed_drive m u h robot s n sp held failed =
      let given : (soft_hold p.command (if s.success then s.u_first else none) n.hold)
          ≡ soft_hold p.command none (failing p.command m (soft_hold p.command (some u) h).1) =
        ap (λ b. soft_hold p.command (if b then s.u_first else none) n.hold) failed
        ∙ ap (soft_hold p.command none) held in
      (
        subst (λ c. IsSent robot n c (drive_command k p robot s (record n { setpoint = sp })).0)
            (ap (λ o. o.0) given ∙ soft_hold-failing p.command m u h)
            (drive_command-IsSent robot s (record n { setpoint = sp })),
        ap (λ o. o.1) given,
      )

  -- Take a node whose hold is what a solve that gave the command `u` leaves, and m failed solves in a row
  -- after it. When the next solve fails too, and has a predicted trajectory, the node publishes one
  -- command: `u` decayed m + 1 times while that is at most the number of cycles, and from then on zero
  -- velocity; or this command with the turn toward the goal's heading blended in, where the node navigates
  -- in tracking mode near a goal whose heading counts. And its hold is then what m + 1 failures leave.
  pub publish_solution-failing :
      (m : ℕ) (u : Command F) (h : Hold F) (pose : Pose F) (path : Trail (Spot F)) (s : Solution F)
      (rows : List (Pose2d F)) (n : Node F T)
      → n.hold ≡ failing p.command m (soft_hold p.command (some u) h).1
      → s.success ≡ false
      → s.x_pred ≡ some rows
      → IsHeldOn pose n
          (if leb (suc m) p.command.soft_hold_cycles then faded p.command (suc m) u else halt)
          (failing p.command (suc m) (soft_hold p.command (some u) h).1)
          (publish_solution k p pose path s n)
  unfolding publish_solution
  publish_solution-failing m u h pose path s rows n held failed predicted =
      let given = failed_drive m u h (pose.spot.0, pose.yaw) s n in
      option-split
        (IsHeldOn pose n
          (if leb (suc m) p.command.soft_hold_cycles then faded p.command (suc m) u else halt)
          (failing p.command (suc m) (soft_hold p.command (some u) h).1))
        s.x_pred (λ e. absurd (none-some (sym e ∙ predicted)))
        (λ rows' e. record {
          sent = _;
          only = refl;
          faded_or_blended = (given _ held failed).0;
          held = (given _ held failed).1;
        })
