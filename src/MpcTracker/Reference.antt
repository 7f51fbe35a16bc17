-- ===== src/MpcTracker/Reference.antt =====
-- `_build_reference` of mpc_tracker.py.
use navigation.Prelude.{ℕ, zero, suc, ◌≡◌, refl, List, [], ◌∷◌, length, pos, if◌then◌else◌, arith}
use navigation.Float.{Float, ◌⊕◌, ◌⊖◌, ◌⊗◌, ◌⊘◌, at_most, less, nought, unit, fmin}
use navigation.Float.Trig.{Trig}
use navigation.Activation.{bound}
use navigation.MpcNode.Plane.{Point, plus, minus, scaled, shrunk, norm, distance}
use navigation.MpcTracker.{TrackerConfig, State}

-- A segment of the path: the arc length at its start, its start, its direction and its length.
pub record Segment (F : Type 0) : Type 0 where
  pub start_arc : F
  pub start : Point F
  pub along : Point F
  pub seg_len : F

module _ {F : Type 0} ⦃f : Float F⦄ where
  abbrev pub segment : F → Point F → Point F → Segment F
  segment s a b = record { start_arc = s; start = a; along = minus b a; seg_len = norm (minus b a) }

  -- The segments of a path that begins at a point and an arc length.
  unfoldable pub segments : F → Point F → List (Point F) → List (Segment F)
  segments s a [] = []
  segments s a (b ∷ bs) = segment s a b ∷ segments (s ⊕ norm (minus b a)) b bs

  abbrev pub total_arc : F → Point F → List (Point F) → F
  total_arc s a [] = s
  total_arc s a (b ∷ bs) = total_arc (s ⊕ norm (minus b a)) b bs

  -- The arc length at the point of the path that is closest to the robot, the first of equal ones, from
  -- the closest point so far.
  abbrev pub closest_arc : Point F → F → F → F → Point F → List (Point F) → F
  closest_arc robot best best_arc s a [] = best_arc
  closest_arc robot best best_arc s a (b ∷ bs) =
      let s' = s ⊕ norm (minus b a) in
      let d = distance b robot in
      closest_arc robot (if less d best then d else best) (if less d best then s' else best_arc) s'
        b bs

  -- The last segment whose start is not beyond the arc length, as `searchsorted` on the right, clipped to
  -- the segments, finds it in arc lengths that increase.
  abbrev pub segment_at : F → Segment F → List (Segment F) → Segment F
  segment_at s g [] = g
  segment_at s g (h ∷ hs) =
      let later = segment_at s h hs in if at_most h.start_arc s then later else g

  abbrev pub tiny : F
  tiny = f.lit 1 1000000000

module _ {F : Type 0} ⦃f : Float F⦄ ⦃t : Trig F⦄ (cfg : TrackerConfig F) where
  -- The reference at an arc length of the path.
  unfoldable pub reference_at : F → Segment F → State F
  unfolding bound
  reference_at s g =
      let along = bound ((s ⊖ g.start_arc) ⊘ (g.seg_len ⊕ tiny)) nought unit in
      let xy = plus g.start (scaled along g.along) in
      let dir = shrunk (g.seg_len ⊕ tiny) g.along in
      record {
        px = xy.0;
        py = xy.1;
        yaw = t.atan2 dir.1 dir.0;
        vx = cfg.v_ref;
        vy = nought;
        wz = nought;
      }

  -- The references of the steps `k`, `k + 1`, and so on.
  abbrev pub references : F → F → Segment F → List (Segment F) → ℕ → ℕ → List (State F)
  references s0 total g gs k zero = []
  references s0 total g gs k (suc n) =
      let s = fmin (s0 ⊕ cfg.v_ref ⊗ f.of_int (pos k) ⊗ cfg.dt) total in
      reference_at s (segment_at s g gs) ∷ references s0 total g gs (suc k) n

  -- The robot's own state, held at every step.
  abbrev pub held_state : State F → ℕ → List (State F)
  held_state x zero = []
  held_state x (suc n) =
      record { px = x.px; py = x.py; yaw = x.yaw; vx = nought; vy = nought; wz = nought }
      ∷ held_state x n

  -- From the robot's state along a path; a path of fewer than two points holds the robot's pose.
  unfoldable pub build_reference : State F → List (Point F) → List (State F)
  build_reference x [] = held_state x (suc cfg.horizon)
  build_reference x (a ∷ []) = held_state x (suc cfg.horizon)
  build_reference x (a ∷ b ∷ bs) =
      let robot : Point F = (x.px, x.py) in
      let s0 = closest_arc robot (distance a robot) nought nought a (b ∷ bs) in
      let total = total_arc nought a (b ∷ bs) in
      x
      ∷ references s0 total (segment nought a b) (segments (nought ⊕ norm (minus b a)) b bs) 1
          cfg.horizon

  length-references :
      (s0 total : F) (g : Segment F) (gs : List (Segment F)) (k n : ℕ)
      → length (references s0 total g gs k n) ≡ n
  length-references s0 total g gs k zero = refl
  length-references s0 total g gs k (suc n) =
      omega (arith, length-references s0 total g gs (suc k) n)

  length-held_state : (x : State F) (n : ℕ) → length (held_state x n) ≡ n
  length-held_state x zero = refl
  length-held_state x (suc n) = omega (arith, length-held_state x n)

  -- The reference has a state for each step of the horizon, and one before them.
  pub length-build_reference :
      (x : State F) (path : List (Point F)) → length (build_reference x path) ≡ suc cfg.horizon
  unfolding build_reference
  length-build_reference x [] = length-held_state x (suc cfg.horizon)
  length-build_reference x (a ∷ []) = length-held_state x (suc cfg.horizon)
  length-build_reference x (a ∷ b ∷ bs) =
      omega (arith, length-references _ _ (segment nought a b) _ 1 cfg.horizon)
