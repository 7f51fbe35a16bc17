-- ===== src/MpcNode/Solve/Gate.antt =====
-- What the timer's callback may publish: the conditions of a velocity that is not zero.
use navigation.Prelude.{
  ◌≡◌, refl, Bool, true, false, ◌⊎◌, inl, inr, Option, none, some, List, [], ◌∷◌, All, All-map,
  if-split, option-split, ap, ◌∙◌, ◌&&◌,
}
use navigation.Float.{Float, IsOrdered, ◌⊖◌, nought, less, at_most}
use navigation.Float.Trig.{Trig}
use navigation.Velocity.Slew.{IsCapped}
use navigation.MpcNode.Plane.{wrap_angle, absolute, distance}
use navigation.MpcNode.Command.{Command, halt, turn_limit}
use navigation.MpcNode.Command.Bounds.{heading_align-IsCapped}
use navigation.MpcNode.Setpoint.{Pose2d}
use navigation.MpcNode.Node.{Params, Pose, Node}
use navigation.MpcNode.Solve.{is_late, is_reached, follow, arrive, steer, solve_cb}
use navigation.MpcNode.Solve.Drive.{Tracker, Readings, Out}

abbrev pub is_some : {A : Type 0} → Option A → Bool
is_some none = false
is_some (some a) = true

module _ {F : Type 0} where
  -- The velocity commands among messages.
  abbrev pub commands_of : List (Out F) → List (Command F)
  commands_of [] = []
  commands_of (Out.cmd_vel c ∷ os) = c ∷ commands_of os
  commands_of (_ ∷ os) = commands_of os

  -- The goal is reached and held.
  abbrev pub is_holding : {T : Type 0} → Node F T → Bool
  is_holding n = is_some n.goal && is_reached n.nav_state

All-any : {A : Type 0} (P : A → Type 0) (xs : List A) → ((x : A) → P x) → All P xs
All-any P [] h = tt
All-any P (x ∷ xs) h = (h x, All-any P xs h)

module _ {F : Type 0} ⦃f : Float F⦄ (p : Params F) where
  -- A turn in place within the limit.
  abbrev pub IsTurn : Command F → Type 0
  IsTurn c = (c.vx ≡ nought) × (c.vy ≡ nought) × IsCapped (turn_limit p.command) c.wz

module _ {F T : Type 0} ⦃f : Float F⦄ (p : Params F) where
  -- A pose that is fresh, and a path that is fresh.
  abbrev pub IsLocalised : Readings F → Node F T → Type 0
  IsLocalised r n =
      (is_some n.pose ≡ true) × (is_late r.now p.odom_timeout_sec n.last_odom_sec ≡ false)

  abbrev pub IsRouted : Readings F → Node F T → Type 0
  IsRouted r n =
      (is_some n.path ≡ true) × (is_late r.now p.path_timeout_sec n.last_path_sec ≡ false)

  abbrev pub IsAllowed : Readings F → Node F T → Command F → Type 0
  IsAllowed r n c =
      (c ≡ halt) ⊎ (IsLocalised r n × (is_holding n ≡ false) × (IsTurn p c ⊎ IsRouted r n))

  -- What the callback publishes with a fresh pose.
  abbrev IsSteering : Readings F → Node F T → Command F → Type 0
  IsSteering r n c = (c ≡ halt) ⊎ ((is_holding n ≡ false) × (IsTurn p c ⊎ IsRouted r n))

  weaken_routed :
      (r : Readings F) (n : Node F T) (c : Command F)
      → is_holding n ≡ false
      → (c ≡ halt) ⊎ IsRouted r n
      → IsSteering r n c
  weaken_routed r n c h (inl e) = inl e
  weaken_routed r n c h (inr g) = inr (h, inr g)

  weaken_turn :
      (r : Readings F) (n : Node F T) (c : Command F)
      → is_holding n ≡ false
      → (c ≡ halt) ⊎ IsTurn p c
      → IsSteering r n c
  weaken_turn r n c h (inl e) = inl e
  weaken_turn r n c h (inr g) = inr (h, inl g)

  weaken_localised :
      (r : Readings F) (n : Node F T) (c : Command F)
      → IsLocalised r n
      → IsSteering r n c
      → IsAllowed r n c
  weaken_localised r n c h (inl e) = inl e
  weaken_localised r n c h (inr (g, d)) = inr (h, g, d)

  module _ ⦃t : Trig F⦄ (k : Tracker F T) (laws : IsOrdered F) where
    follow-commands :
        (r : Readings F) (pose : Pose F) (n : Node F T)
        → All (λ c. (c ≡ halt) ⊎ IsRouted r n) (commands_of (follow k p r pose n).1)
    unfolding follow
    follow-commands r pose n =
        let P =
          λ (o : Node F T × List (Out F)). All (λ c. (c ≡ halt) ⊎ IsRouted r n) (commands_of o.1) in
        option-split P n.path (λ e. (inl refl, tt))
          (λ path e.
            if-split P (is_late r.now p.path_timeout_sec n.last_path_sec) (λ late. (inl refl, tt))
              (λ fresh. All-any _ _ (λ c. inr (ap is_some e, fresh))))

    arrive-commands :
        (pose : Pose F) (goal : Pose2d F) (n : Node F T)
        → All (λ c. (c ≡ halt) ⊎ IsTurn p c) (commands_of (arrive k p pose goal n).1)
    unfolding arrive
    arrive-commands pose goal n =
        let yaw_err = wrap_angle (goal.1 ⊖ pose.yaw) in
        if-split
          (λ (o : Node F T × List (Out F)). All (λ c. (c ≡ halt) ⊎ IsTurn p c) (commands_of o.1))
          (p.require_goal_heading && less p.heading_tol (absolute yaw_err))
          (λ e. (inr (refl, refl, heading_align-IsCapped laws p.command yaw_err), tt))
          (λ e. (inl refl, tt))

    steer-commands :
        (r : Readings F) (pose : Pose F) (n : Node F T)
        → All (IsSteering r n) (commands_of (steer k p r pose n).1)
    unfolding steer
    steer-commands r pose n =
        let P = λ (o : Node F T × List (Out F)). All (IsSteering r n) (commands_of o.1) in
        let routed = λ (h : is_holding n ≡ false).
          All-map _ _ _ (λ c. weaken_routed r n c h) (follow-commands r pose n) in
        option-split P n.goal (λ e. routed (ap (λ g. is_some g && is_reached n.nav_state) e))
          (λ goal e.
            if-split P (is_reached n.nav_state) (λ held. (inl refl, tt))
              (λ free.
                let unheld = ap (λ g. is_some g && is_reached n.nav_state) e ∙ free in
                if-split P (at_most (distance pose.spot.0 goal.0) p.command.reached_radius)
                  (λ near.
                    All-map _ _ _ (λ c. weaken_turn r n c unheld) (arrive-commands pose goal n))
                  (λ far. routed unheld)))

    -- Whatever the state and the tracker, a velocity command that the timer's callback publishes is zero
    -- unless there is a pose and it is fresh, and no goal is being held as reached; and then it is a
    -- turn in place within the turn's limit, or there is a path and it is fresh.
    pub solve_cb-IsAllowed :
        (r : Readings F) (n : Node F T) → All (IsAllowed r n) (commands_of (solve_cb k p r n).1)
    unfolding solve_cb
    solve_cb-IsAllowed r n =
        let P = λ (o : Node F T × List (Out F)). All (IsAllowed r n) (commands_of o.1) in
        option-split P n.pose (λ e. (inl refl, tt))
          (λ pose e.
            if-split P (is_late r.now p.odom_timeout_sec n.last_odom_sec) (λ late. (inl refl, tt))
              (λ fresh.
                All-map _ _ _ (λ c. weaken_localised r n c (ap is_some e, fresh))
                  (steer-commands r pose n)))
