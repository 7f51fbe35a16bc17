-- ===== src/MpcTracker/Solve/Health.antt =====
-- What the tracker keeps over any sequence of solves.
use navigation.Prelude.{
  ℕ, suc, ◌≤◌, ◌≡◌, ◌⊎◌, refl, ap, ◌∙◌, Bool, true, false, Option, none, some, List, [], ◌∷◌, ◌++◌,
  length, length-append, leb, if-split, arith, inl, inr,
}
use navigation.Float.{Float}
use navigation.Float.Trig.{Trig}
use navigation.MpcNode.Plane.{Point}
use navigation.MpcTracker.{TrackerConfig, State}
use navigation.MpcTracker.Obstacles.{Argsort}
use navigation.MpcTracker.Solve.{
  Trajectory, Solver, Tracker, recorded, drop_first, initial_state, initial_guess, cold_start,
  guess_from, posed, concluded, solve,
}

-- What one solve is given. The solver may differ from solve to solve.
pub record Call (F : Type 0) : Type 0 where
  pub argsort : Argsort F
  pub solver : Solver F
  pub robot_state : Option (State F)
  pub path : List (Point F)
  pub obs : Option (List (Option (Point F)))

-- How many results at the head are failures.
abbrev pub failures_in_row : List Bool → ℕ
failures_in_row [] = 0
failures_in_row (true ∷ rs) = 0
failures_in_row (false ∷ rs) = suc (failures_in_row rs)

module _ {F : Type 0} ⦃f : Float F⦄ where
  -- A new tracker, with the velocity limits of its configuration.
  abbrev pub fresh : F → F → F → Tracker F
  fresh vx vy wz = record {
    prev = none;
    vx_max_eff = vx;
    vy_max_eff = vy;
    omega_max_eff = wz;
    last_valid_x0 = none;
    consecutive_failures = 0;
    cost_history = [];
  }

  length-drop_first : (c : F) (cs : List F) → length (drop_first (cs ++ (c ∷ []))) ≡ length cs
  length-drop_first c [] = refl
  length-drop_first c (d ∷ cs) = omega (arith, length-append cs (c ∷ []))

  length-recorded : (c : F) (cs : List F) → length cs ≤ 8 → length (recorded c cs) ≤ 8
  unfolding recorded
  length-recorded c cs h = ground (arith, length-drop_first c cs, length-append cs (c ∷ []))

  -- What holds of the tracker after results, of which the head is the latest.
  pub record IsHealthy (rs : List Bool) (s : Tracker F) : Type 0 where
    pub counted : s.consecutive_failures ≡ failures_in_row rs
    pub bounded : length s.cost_history ≤ 8
    pub cold : (s.consecutive_failures ≡ 0) ⊎ (s.prev ≡ none)

module _ {F : Type 0} ⦃f : Float F⦄ ⦃t : Trig F⦄ (cfg : TrackerConfig F) where
  concluded-IsHealthy :
      (x_ref : List (State F)) (ok : Bool) (cost : Option F) (values : Option (Trajectory F))
      (rs : List Bool) (s : Tracker F)
      → IsHealthy rs s
      → IsHealthy
          ((concluded cfg x_ref ok cost values s).0.success ∷ rs)
          (concluded cfg x_ref ok cost values s).1
  unfolding concluded
  concluded-IsHealthy x_ref true (some c) (some v) rs s h = record {
    counted = refl;
    bounded = length-recorded c s.cost_history h.bounded;
    cold = inl refl;
  }
  concluded-IsHealthy x_ref true none (some v) rs s h = record {
    counted = ap suc h.counted;
    bounded = h.bounded;
    cold = inr refl;
  }
  concluded-IsHealthy x_ref false cost (some v) rs s h = record {
    counted = ap suc h.counted;
    bounded = h.bounded;
    cold = inr refl;
  }
  concluded-IsHealthy x_ref ok cost none rs s h = record {
    counted = ap suc h.counted;
    bounded = h.bounded;
    cold = inr refl;
  }

  unfoldable pub session : Tracker F → List (Call F) → Tracker F × List Bool
  session start [] = (start, [])
  session start (c ∷ cs) =
      let before = session start cs in
      let out = solve cfg c.argsort c.solver c.robot_state c.path c.obs before.0 in
      (out.1, out.0.success ∷ before.1)

  -- After any solves of a new tracker, whatever the solver did: the tracker counts the failures since the
  -- last success, keeps at most eight costs, and has no warm start unless it counts no failure.
  pub session-IsHealthy :
      (vx vy wz : F) (cs : List (Call F))
      → IsHealthy (session (fresh vx vy wz) cs).1 (session (fresh vx vy wz) cs).0
  unfolding session solve
  session-IsHealthy vx vy wz [] = record { counted = refl; bounded = omega arith; cold = inl refl }
  session-IsHealthy vx vy wz (c ∷ cs) =
      let s = (session (fresh vx vy wz) cs).0 in
      let x0 = initial_state c.robot_state s.last_valid_x0 in
      let problem = posed cfg c.argsort x0 c.path c.obs s in
      let attempt = c.solver problem in
      let h = session-IsHealthy vx vy wz cs in
      concluded-IsHealthy problem.x_ref attempt.ipopt_ok attempt.cost attempt.values _
        (record s { last_valid_x0 = some x0 })
        (record { counted = h.counted; bounded = h.bounded; cold = h.cold })

  -- After solves of which the latest failed, the next solve starts from the reference and zero commands.
  pub session-cold_start :
      (vx vy wz : F) (cs : List (Call F)) (rs : List Bool) (x_ref : List (State F))
      → (session (fresh vx vy wz) cs).1 ≡ false ∷ rs
      → initial_guess cfg x_ref (session (fresh vx vy wz) cs).0 ≡ cold_start cfg x_ref
  unfolding initial_guess
  session-cold_start vx vy wz cs rs x_ref e =
      let s = (session (fresh vx vy wz) cs).0 in
      let h = session-IsHealthy vx vy wz cs in
      let P = λ (g : Trajectory F). g ≡ cold_start cfg x_ref in
      let failed = h.counted ∙ ap failures_in_row e in
      if-split P (leb 3 s.consecutive_failures) (λ _. refl)
        (λ _.
          if-split P cfg.warm_start
            (λ _. elim h.cold [
              | inl none_failed ↦ absurd (omega (arith, failed, none_failed))
              | inr empty ↦ ap (λ o. guess_from o (cold_start cfg x_ref)) empty
            ])
            (λ _. refl))
