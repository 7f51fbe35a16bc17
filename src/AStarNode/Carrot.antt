-- ===== src/AStarNode/Carrot.antt =====
-- `_carrot_target` of a_star_node.py.
use navigation.Prelude.{not, ◌||◌, none, some, List, [], ◌∷◌, if◌then◌else◌}
use navigation.Float.{Float, ◌⊕◌, ◌⊖◌, ◌⊘◌, at_most, less, nought}
use navigation.MpcNode.Plane.{Point, plus, minus, scaled, distance}
use navigation.AStarNode.{Params, Node}

module _ {F : Type 0} ⦃f : Float F⦄ where
  -- The rest of a path from the point that is closest to the robot, the first of equal ones; `best` begins
  -- at the closest so far.
  abbrev pub from_closest :
      Point F → Point F × List (Point F) → List (Point F) → Point F × List (Point F)
  from_closest robot best [] = best
  from_closest robot best (b ∷ bs) =
      from_closest robot (if less (distance b robot) (distance best.0 robot) then (b, bs) else best)
        bs

  -- The point that lies `dist` further along a path, of which `acc` is passed, or its end.
  unfoldable pub walk : F → F → Point F → List (Point F) → Point F
  walk dist acc a [] = a
  walk dist acc a (b ∷ bs) =
      let seg = distance b a in
      let rest = walk dist (acc ⊕ seg) b bs in
      let share = (dist ⊖ acc) ⊘ (seg ⊕ f.lit 1 1000000000) in
      if at_most dist (acc ⊕ seg) then plus a (scaled share (minus b a)) else rest

  abbrev pub carrot_on : F → Point F → List (Point F) → Point F → Point F
  carrot_on dist robot [] goal = goal
  carrot_on dist robot (a ∷ []) goal = goal
  carrot_on dist robot (a ∷ b ∷ bs) goal =
      let start = from_closest robot (a, b ∷ bs) (b ∷ bs) in walk dist nought start.0 start.1

  -- The target of A*: on the global path while it is fresh, or else the goal.
  unfoldable pub carrot_target : Params F → F → Point F → Point F → Node F → Point F
  carrot_target p now goal robot n = elim n.global_path [
    | none ↦ goal
    | some path ↦
        if not p.follow_global_path || less p.global_path_max_age (now ⊖ path.1)
        then goal
        else carrot_on p.global_carrot_dist robot path.0 goal
  ]
