-- ===== src/MpcNode/Security.antt =====
-- `_security_escape` of mpc_node.py. The counts of cycles that its parameters give are natural numbers.
pub mod Debounce
use navigation.Prelude.{
  ℕ, suc, ◌+◌, Bool, true, false, ◌||◌, not, Option, none, some, List, [], ◌∷◌, leb, if◌then◌else◌,
}
use navigation.Float.{Float, ◌⊘◌, at_most, less, nought, unit}
use navigation.MpcNode.Plane.{Point, plus, minus, scaled, shrunk, norm, distance, mean}

pub record SecurityParams (F : Type 0) : Type 0 where
  pub enable : Bool
  pub radius : F
  pub escape_radius : F
  pub engage_cycles : ℕ
  pub clear_cycles : ℕ

pub record Security : Type 0 where
  pub mode : Bool
  pub engage_count : ℕ
  pub clear_count : ℕ

abbrev pub calm : Security
calm = record { mode = false; engage_count = 0; clear_count = 0 }

-- The counters after a solve, which had an obstacle near or had none.
unfoldable pub debounce : ℕ → ℕ → Bool → Security → Security
debounce engage_cycles clear_cycles true s = record {
  mode = if leb engage_cycles (suc s.engage_count) then true else s.mode;
  engage_count = suc s.engage_count;
  clear_count = 0;
}
debounce engage_cycles clear_cycles false s =
    if s.mode
    then record {
      mode = not (leb clear_cycles (suc s.clear_count));
      engage_count = 0;
      clear_count = suc s.clear_count;
    }
    else record s { engage_count = 0 }

module _ {F : Type 0} ⦃f : Float F⦄ (p : SecurityParams F) where
  -- The points within the security radius.
  unfoldable pub near_points : Point F → List (Point F) → List (Point F)
  near_points robot [] = []
  near_points robot (o ∷ os) =
      let rest = near_points robot os in
      if at_most (distance o robot) p.radius then o ∷ rest else rest

  abbrev pub any_near : List (Point F) → Bool
  any_near [] = false
  any_near (o ∷ os) = true

  -- The point that lies straight away from the centroid.
  unfoldable pub escape_target : Point F → List (Point F) → Point F
  escape_target robot os =
      let away = minus robot (mean os) in
      if less (norm away) (f.lit 1 1000)
      then plus robot (scaled p.escape_radius (shrunk unit (unit, nought)))
      else plus robot (scaled p.escape_radius (shrunk (norm away) away))

  -- Whether an obstacle is near: with no obstacles, or the check disabled, none is.
  abbrev pub sees_near : Point F → Option (List (Point F)) → Bool
  sees_near robot none = false
  sees_near robot (some os) = if p.enable then any_near (near_points robot os) else false

  abbrev pub push_away : Point F → List (Point F) → List (Point F) → Point F
  push_away robot [] os = escape_target robot os
  push_away robot (n ∷ ns) os = escape_target robot (n ∷ ns)

  -- The next state, whose mode is the first component of the code's result, and the escape target.
  unfoldable pub security_escape :
      Point F → Option (List (Point F)) → Security → Security × Option (Point F)
  security_escape robot none s = (debounce p.engage_cycles p.clear_cycles false s, none)
  security_escape robot (some []) s = (debounce p.engage_cycles p.clear_cycles false s, none)
  security_escape robot (some (o ∷ os)) s =
      let near = near_points robot (o ∷ os) in
      let s' = debounce p.engage_cycles p.clear_cycles (any_near near) s in
      if not p.enable
      then (debounce p.engage_cycles p.clear_cycles false s, none)
      else (s', if s'.mode then some (push_away robot near (o ∷ os)) else none)
